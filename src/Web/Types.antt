-- ===== src/Web/Types.antt =====
-- web/src/lib/types.ts. A role, a status and a violation type are texts: what the server sends is
-- cast to these types and never checked.
use swiftmind_parking_portal.Common.{String, Bool, Option, none, some, List, [], ◌∷◌, lookup}

pub record User : Type 0 where
  pub id : String
  pub email : String
  pub name : String
  pub role : String

-- `VIOLATION_TYPES`.
unfoldable pub violation_types : List String
violation_types = "expired_meter" ∷ "no_parking_zone" ∷ "blocking_hydrant" ∷ "disabled_spot" ∷ []

-- `VIOLATION_TYPE_LABELS`.
unfoldable pub violation_type_labels : List (String × String)
violation_type_labels =
    ("expired_meter", "Expired meter")
    ∷ ("no_parking_zone", "No-parking zone")
    ∷ ("blocking_hydrant", "Blocking hydrant")
    ∷ ("disabled_spot", "Disabled spot")
    ∷ []

-- `a ?? b`.
abbrev pub or_else {ℓ} : {A : Type ℓ} → Option A → A → A
or_else none b = b
or_else (some a) b = a

-- `labelForType`, over the table's own keys.
unfoldable pub label_for_type : String → String
unfolding violation_type_labels
label_for_type type = or_else (lookup type violation_type_labels) type

module _ (Num : Type 0) where
  -- the interface of the field `time_multiplier`
  pub record TimeRule : Type 0 where
    pub day_start_hour : Num
    pub night_start_hour : Num
    pub day_multiplier : Num
    pub night_multiplier : Num

  pub record Tier : Type 0 where
    pub min_prior_unpaid : Num
    pub multiplier : Num

  pub record Ruleset : Type 0 where
    pub base_amounts : List (String × Num)
    pub time_multiplier : TimeRule
    -- the field `tiers` of `repeat_multiplier`
    pub tiers : List Tier

  pub record RuleVersion : Type 0 where
    pub id : String
    pub version : Num
    pub is_active : Bool
    -- the field `ruleset`
    pub rules : Ruleset
    pub created_by : String
    pub created_at : String

  pub record Invoice : Type 0 where
    pub id : String
    pub violation_id : String
    pub plate : String
    pub violation_type : String
    pub owner_email : String
    pub amount : Num
    pub status : String
    pub transaction_id : Option String
    pub created_at : String

  pub record Violation : Type 0 where
    pub id : String
    pub plate : String
    pub violation_type : String
    pub location : String
    pub occurred_at : String
    pub photo_url : Option String
    pub owner_email : String
    pub issued_by_email : String
    pub rule_version : Num
    pub base_amount : Num
    pub time_multiplier : Num
    pub repeat_multiplier : Num
    pub prior_unpaid_count : Num
    pub final_amount : Num
    pub payment_status : String
    pub created_at : String

pub record PayResult : Type 0 where
  pub status : String
  pub transaction_id : String

pub record Notification : Type 0 where
  pub id : String
  pub kind : String
  pub message : String
  pub violation_id : Option String
  pub created_at : String
