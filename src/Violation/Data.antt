-- ===== src/Violation/Data.antt =====
-- internal/violation/{store,service,rulesclient}.go: the data of the violation service, and what it
-- takes from Go's library beside `float64` and `time.Time`.
use swiftmind_parking_portal.Common.{ℕ, String, Bool, Option, List}
use swiftmind_parking_portal.Common.Int.{ℤ}
use swiftmind_parking_portal.Events.{ViolationCreated}
use swiftmind_parking_portal.Fine.{Ruleset}
use swiftmind_parking_portal.Fine.Platform.{Runtime}

-- `Photo`; the reader stands for its bytes.
pub record Photo : Type 0 where
  pub content : String
  pub size : ℕ
  pub content_type : String
  pub filename : String

pub data Error : Type 0 where
  invalid_input not_found internal : Error

module _ (rt : Runtime) where
  open rt use {Float, Time}

  pub record Library : Type 0 where
    -- `t.IsZero()`
    pub is_zero : Time → Bool
    -- `t.Before(u)`, and `t < u` on the column `occurred_at`
    pub before : Time → Time → Bool
    -- `t.Add(-n * time.Hour)`
    pub sub_hours : ℕ → Time → Time
    -- `time.Parse`, where it gives no error
    pub parse : (layout s : String) → Option Time
    -- the content type of an object in the store that was put there with the given one
    pub stored_type : String → String
    -- `path.Ext`
    pub ext : String → String

  -- `CreateInput`.
  pub record CreateInput : Type 0 where
    pub plate : String
    pub violation_type : String
    pub location : String
    pub occurred_at : Time
    pub issued_by_email : String

  -- `ActiveRuleset`; the field `rules` is `Ruleset`.
  pub record ActiveRuleset : Type 0 where
    pub id : String
    pub version : ℕ
    pub rules : Ruleset Float

  -- `Violation`, without `CreatedAt`; "" stands for the NULL of a photo or an owner.
  pub record Violation : Type 0 where
    pub id : String
    pub plate : String
    pub violation_type : String
    pub location : String
    pub occurred_at : Time
    pub photo_object : String
    pub photo_url : String
    pub owner_email : String
    pub issued_by_email : String
    pub rule_version_id : String
    pub rule_version : ℕ
    pub base_amount : ℤ
    pub time_multiplier : Float
    pub repeat_multiplier : Float
    pub prior_unpaid_count : ℤ
    pub final_amount : ℤ
    pub payment_status : String

  -- The plate registry, the table of violations newest first with an empty `photo_url`, the photos in
  -- the object store by key, and the events that were published, newest first.
  pub record World : Type 0 where
    pub plates : List (String × String)
    pub violations : List Violation
    pub photos : List (String × Photo)
    pub events : List ViolationCreated

  -- What a call of `Create` meets: what the rules service answers, the calls that fail, whether there
  -- is a broker that takes the event, and the identifiers that are made.
  pub record Env : Type 0 where
    pub active : Option ActiveRuleset
    pub count_fails : Bool
    pub put_fails : Bool
    pub owner_fails : Bool
    pub insert_fails : Bool
    pub publishes : Bool
    pub photo_uuid : String
    pub row_id : String

  pub data Answer : Type 0 where
    ok : Violation → Answer
    err : Error → Answer
