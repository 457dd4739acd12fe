-- ===== src/Wire/Shapes.antt =====
-- The interfaces of web/src/lib/types.ts, as shapes of the JSON that has them. An object may have more
-- fields than its interface.
use swiftmind_parking_portal.Common.{
  String, Bool, true, false, ◌&&◌, ◌||◌, Option, none, some, List, [], ◌∷◌, ◌=t◌,
}
use swiftmind_parking_portal.Web.Types.{violation_types}
use swiftmind_parking_portal.Web.Http.{
  Json, bool, num, str, arr, obj, Items, nil, cons, Fields, end, field, property,
}

mutual
  pub data Shape : Type 0 where
    text number boolean : Shape
    -- a union of string literals
    one_of : List String → Shape
    -- `T[]`
    array : Shape → Shape
    -- `Record<string, T>`
    record_of : Shape → Shape
    object : Members → Shape

  pub data Members : Type 0 where
    done : Members
    -- `name: T` and `name?: T`
    required optional : String → Shape → Members → Members

abbrev pub is_one_of : List String → String → Bool
is_one_of [] s = false
is_one_of (t ∷ ts) s = s =t t || is_one_of ts s

abbrev pub all_items : (Json → Bool) → Items → Bool
all_items test nil = true
all_items test (cons v vs) = test v && all_items test vs

abbrev pub all_fields : (Json → Bool) → Fields → Bool
all_fields test end = true
all_fields test (field k v fs) = test v && all_fields test fs

abbrev pub is_present : (Json → Bool) → Option Json → Bool
is_present test none = false
is_present test (some v) = test v

abbrev pub is_absent_or : (Json → Bool) → Option Json → Bool
is_absent_or test none = true
is_absent_or test (some v) = test v

-- The value has the type.
unfoldable mutual
  pub conforms : Shape → Json → Bool
  conforms text (str s) = true
  conforms number (num n) = true
  conforms boolean (bool b) = true
  conforms (one_of ss) (str s) = is_one_of ss s
  conforms (array s) (arr vs) = all_items (conforms s) vs
  conforms (record_of s) (obj fs) = all_fields (conforms s) fs
  conforms (object ms) (obj fs) = conforms_members ms fs
  conforms _ _ = false

  pub conforms_members : Members → Fields → Bool
  conforms_members done fs = true
  conforms_members (required k s ms) fs =
      is_present (conforms s) (property k fs) && conforms_members ms fs
  conforms_members (optional k s ms) fs =
      is_absent_or (conforms s) (property k fs) && conforms_members ms fs

-- `Role`, `ViolationType`, `PaymentStatus` and `InvoiceStatus`.
abbrev pub role_shape : Shape
role_shape = one_of ("officer" ∷ "member" ∷ [])

unfoldable pub violation_type_shape : Shape
unfolding violation_types
violation_type_shape = one_of violation_types

abbrev pub payment_status_shape : Shape
payment_status_shape = one_of ("unpaid" ∷ "paid" ∷ [])

abbrev pub invoice_status_shape : Shape
invoice_status_shape = one_of ("open" ∷ "paid" ∷ [])

-- `User`.
abbrev pub user_shape : Shape
user_shape = object (
    required "id" text
      (required "email" text (required "name" text (required "role" role_shape done))))

-- An element of `tiers`.
abbrev pub tier_shape : Shape
tier_shape = object (required "min_prior_unpaid" number (required "multiplier" number done))

-- `Ruleset`.
abbrev pub ruleset_shape : Shape
ruleset_shape = object (
    required "base_amounts" (record_of number) (
      required "time_multiplier"
        (object (
          required "day_start_hour" number (
            required "night_start_hour" number
              (required "day_multiplier" number (required "night_multiplier" number done)))))
        (required "repeat_multiplier" (object (required "tiers" (array tier_shape) done)) done)))

-- `RuleVersion`.
abbrev pub rule_version_shape : Shape
rule_version_shape = object (
    required "id" text (
      required "version" number (
        required "is_active" boolean (
          required "ruleset" ruleset_shape
            (required "created_by" text (required "created_at" text done))))))

-- `Invoice`.
unfoldable pub invoice_shape : Shape
unfolding violation_type_shape
invoice_shape = object (
    required "id" text (
      required "violation_id" text (
        required "plate" text (
          required "violation_type" violation_type_shape (
            required "owner_email" text (
              required "amount" number (
                required "status" invoice_status_shape
                  (optional "transaction_id" text (required "created_at" text done)))))))))

-- `PayResult`.
abbrev pub pay_result_shape : Shape
pay_result_shape =
    object
      (required "status" (one_of ("paid" ∷ "failed" ∷ [])) (required "transaction_id" text done))

-- `Notification`.
abbrev pub notification_shape : Shape
notification_shape = object (
    required "id" text (
      required "kind" text
        (required "message" text (optional "violation_id" text (required "created_at" text done)))))

-- `Violation`.
unfoldable pub violation_shape : Shape
unfolding violation_type_shape
violation_shape = object (
    required "id" text (
      required "plate" text (
        required "violation_type" violation_type_shape (
          required "location" text (
            required "occurred_at" text (
              optional "photo_url" text (
                required "owner_email" text (
                  required "issued_by_email" text (
                    required "rule_version" number (
                      required "base_amount" number (
                        required "time_multiplier" number (
                          required "repeat_multiplier" number (
                            required "prior_unpaid_count" number (
                              required "final_amount" number (
                                required "payment_status" payment_status_shape
                                  (required "created_at" text done))))))))))))))))

-- `{ key: T[] }`, the type arguments of `api` in web/src/lib/{violations,invoices,notifications,rules}.ts.
abbrev pub list_shape : (key : String) → Shape → Shape
list_shape key s = object (required key (array s) done)
