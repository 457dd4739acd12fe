-- ===== src/Wire.antt =====
-- The JSON between the services and the web application: the `json` tags of the structs in
-- internal/{violation,payment,notification,rules,identity} and pkg/fine, `httpx.JSON` and `httpx.Error`,
-- and what web/src/lib and web/src/contexts/auth-context.tsx take from an answer. The texts that Go
-- writes for numbers and times come as `Encoder`, with the times of creation, which the tables leave out.
pub mod Shapes
pub mod Rows
pub mod Kept
pub mod Typed
pub mod Reading
pub mod Transport
pub mod Sample
mod Tests
use swiftmind_parking_portal.Common.{
  String, Bool, Option, none, some, List, [], ◌∷◌, map, if◌then◌else◌, ◌=t◌,
}
use swiftmind_parking_portal.Common.Int.{ℤ, pos}
use swiftmind_parking_portal.Fine.{Ruleset, TimeMultiplier, RepeatTier}
use swiftmind_parking_portal.Fine.Platform.{Runtime}
use swiftmind_parking_portal.Violation
use swiftmind_parking_portal.Payment
use swiftmind_parking_portal.Notification
use swiftmind_parking_portal.Rules
use swiftmind_parking_portal.Identity.{PublicUser}
use swiftmind_parking_portal.Handlers.{Response, failure}
use swiftmind_parking_portal.Handlers as Handlers
use swiftmind_parking_portal.Web.Http.{
  Json, null, bool, num, str, arr, obj, Items, nil, cons, Fields, end, field, property, Js, Fetched,
  responded, Outcome, ok, api_error, other_error, settle,
}

-- A field with `omitempty`.
abbrev pub omit_empty : String → String → Fields → Fields
omit_empty key v rest = if v =t "" then rest else field key (str v) rest

-- A slice.
abbrev pub items : {A : Type 0} → (A → Json) → List A → Items
items encode [] = nil
items encode (x ∷ xs) = cons (encode x) (items encode xs)

-- `map[string]any` with one key.
abbrev pub singleton : String → Json → Json
singleton key v = obj (field key v end)

unfoldable pub encode_user : PublicUser → Json
encode_user u = obj (
    field "id" (str u.id)
      (field "email" (str u.email) (field "name" (str u.name) (field "role" (str u.role) end))))

module _ (rt : Runtime) where
  open rt use {Float, Time}

  pub record Encoder : Type 0 where
    pub show_int : ℤ → String
    pub show_float : Float → String
    pub show_time : Time → String
    -- the time of creation of the row with an identifier
    pub created_at : String → String

  module _ (e : Encoder) where
    -- `Violation`.
    unfoldable pub encode_violation : Violation.Violation rt → Json
    encode_violation v = obj (
        field "id" (str v.id) (
          field "plate" (str v.plate) (
            field "violation_type" (str v.violation_type) (
              field "location" (str v.location) (
                field "occurred_at" (str (e.show_time v.occurred_at)) (
                  omit_empty "photo_url" v.photo_url (
                    field "owner_email" (str v.owner_email) (
                      field "issued_by_email" (str v.issued_by_email) (
                        field "rule_version_id" (str v.rule_version_id) (
                          field "rule_version" (num (e.show_int (pos v.rule_version))) (
                            field "base_amount" (num (e.show_int v.base_amount)) (
                              field "time_multiplier" (num (e.show_float v.time_multiplier)) (
                                field "repeat_multiplier" (num (e.show_float v.repeat_multiplier)) (
                                  field "prior_unpaid_count" (num (e.show_int v.prior_unpaid_count))
                                    (field "final_amount" (num (e.show_int v.final_amount)) (
                                      field "payment_status" (str v.payment_status) (
                                        field "created_at" (str (e.created_at v.id))
                                          end)))))))))))))))))

    -- `Invoice`.
    unfoldable pub encode_invoice : Payment.Invoice → Json
    encode_invoice i = obj (
        field "id" (str i.id) (
          field "violation_id" (str i.violation_id) (
            field "plate" (str i.plate) (
              field "violation_type" (str i.violation_type) (
                field "owner_email" (str i.owner_email) (
                  field "issued_by_email" (str i.issued_by_email) (
                    field "amount" (num (e.show_int i.amount)) (
                      field "status" (str i.status) (
                        omit_empty "transaction_id" i.transaction_id
                          (field "created_at" (str (e.created_at i.id)) end))))))))))

    -- `PayResult`.
    unfoldable pub encode_pay_result : Payment.PayResult → Json
    unfolding encode_invoice
    encode_pay_result r = obj (
        field "status" (str r.status) (
          field "transaction_id" (str r.transaction_id)
            (field "invoice" (encode_invoice r.invoice) end)))

    -- `Notification`, with the identifier of its row; the recipient is not sent.
    unfoldable pub encode_notification : (id : String) → Notification.Notification → Json
    encode_notification id n = obj (
        field "id" (str id) (
          field "kind" (str n.kind) (
            field "message" (str n.message) (
              omit_empty "violation_id" n.violation_id
                (field "created_at" (str (e.created_at id)) end)))))

    abbrev pub amounts : List (String × ℤ) → Fields
    amounts [] = end
    amounts ((type, amount) ∷ rest) = field type (num (e.show_int amount)) (amounts rest)

    abbrev pub encode_tier : RepeatTier Float → Json
    encode_tier t = obj (
        field "min_prior_unpaid" (num (e.show_int t.min_prior_unpaid))
          (field "multiplier" (num (e.show_float t.multiplier)) end))

    abbrev encode_times : TimeMultiplier Float → Json
    encode_times t = obj (
        field "day_start_hour" (num (e.show_int t.day_start_hour)) (
          field "night_start_hour" (num (e.show_int t.night_start_hour)) (
            field "day_multiplier" (num (e.show_float t.day_multiplier))
              (field "night_multiplier" (num (e.show_float t.night_multiplier)) end))))

    -- `fine.Ruleset`.
    unfoldable pub encode_ruleset : Ruleset Float → Json
    encode_ruleset r = obj (
        field "base_amounts" (obj (amounts r.base_amounts)) (
          field "time_multiplier" (encode_times r.time_multiplier)
            (field "repeat_multiplier" (singleton "tiers" (arr (items encode_tier r.tiers))) end)))

    -- `rules.Version`.
    unfoldable pub encode_version : Rules.Version rt → Json
    unfolding encode_ruleset
    encode_version v = obj (
        field "id" (str v.id) (
          field "version" (num (e.show_int (pos v.version))) (
            field "is_active" (bool v.is_active) (
              field "ruleset" (encode_ruleset v.rules) (
                field "created_by" (str v.created_by)
                  (field "created_at" (str (e.created_at v.id)) end))))))

    -- The bodies of the lists.
    unfoldable pub violations_body : List (Violation.Violation rt) → Json
    unfolding encode_violation
    violations_body vs = singleton "violations" (arr (items encode_violation vs))

    unfoldable pub invoices_body : List Payment.Invoice → Json
    unfolding encode_invoice
    invoices_body is = singleton "invoices" (arr (items encode_invoice is))

    unfoldable pub versions_body : List (Rules.Version rt) → Json
    unfolding encode_version
    versions_body vs = singleton "versions" (arr (items encode_version vs))

    -- The rows with their identifiers.
    unfoldable pub notifications_body : List (String × Notification.Notification) → Json
    unfolding encode_notification
    notifications_body ns =
        singleton "notifications" (arr (items (λ n. encode_notification n.0 n.1) ns))

-- The body of a login and of `me`.
unfoldable pub user_body : PublicUser → Json
unfolding encode_user
user_body u = singleton "user" (encode_user u)

-- What the browser gets of an answer, with the text that `json.NewEncoder` writes.
unfoldable pub sent : {A : Type 0} → (Json → String) → (A → Json) → Response A → Fetched
sent write encode (Handlers.json status v) = responded status (write (encode v))
sent write encode (failure status message) =
    responded status (write (singleton "error" (str message)))

-- `promise.then((r) => r[key])`, or `const { key } = await promise`: `none` is `undefined`, and `null` throws.
unfoldable pub pluck : String → Outcome Json → Outcome (Option Json)
pluck key (ok (obj fields)) = ok (property key fields)
pluck key (ok null) = other_error "TypeError"
pluck key (ok (bool b)) = ok none
pluck key (ok (num n)) = ok none
pluck key (ok (str s)) = ok none
pluck key (ok (arr xs)) = ok none
pluck key (api_error status message) = api_error status message
pluck key (other_error message) = other_error message
