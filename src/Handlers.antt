-- ===== src/Handlers.antt =====
-- internal/{violation,payment,rules,notification}/handler.go: the answers of the services to the
-- requests that the gateway forwards. A body that does not decode is `none`.
pub mod Callers
pub mod SignIn
pub mod SignOut
mod Tests
use swiftmind_parking_portal.Common.{
  ℕ, String, Option, none, some, List, [], ◌∷◌, ◌=t◌, if◌then◌else◌,
}
use swiftmind_parking_portal.Fine.Platform.{Runtime}
use swiftmind_parking_portal.Gateway.{Request, header, set}
use swiftmind_parking_portal.Fine.{Ruleset, InvalidRuleset}
use swiftmind_parking_portal.Rules
use swiftmind_parking_portal.Violation
use swiftmind_parking_portal.Payment
use swiftmind_parking_portal.Notification

-- `httpx.JSON` and `httpx.Error`.
pub data Response (A : Type 0) : Type 0 where
  json : (status : ℕ) → A → Response A
  failure : (status : ℕ) → (message : String) → Response A

-- The statuses of the errors of `Pay`.
unfoldable pub pay_error : Payment.Error → Response Payment.PayResult
pay_error Payment.not_found = failure 404 "invoice not found"
pay_error Payment.forbidden = failure 403 "not your invoice"
pay_error Payment.invalid_scenario = failure 400 "scenario must be success or failed"
pay_error Payment.busy = failure 409 "a payment for this invoice is already in progress"
pay_error Payment.internal = failure 500 "internal error"

unfoldable pub pay_response : Payment.Answer → Response Payment.PayResult
unfolding pay_error
pay_response (Payment.ok r) = json 200 r
pay_response (Payment.err e) = pay_error e

-- `pay` of the payment service, on the scenario of the body.
unfoldable pub pay :
    Payment.Env
    → (id : String) → (scenario : Option String) → Request
    → Payment.World
    → Response Payment.PayResult × Payment.World
unfolding pay_response
pay env id none q w = (failure 400 "invalid request body", w)
pay env id (some scenario) q w =
    let (answer, w') = Payment.pay env id scenario (header "X-User-Email" q.headers) w in
    (pay_response answer, w')

-- `list` of the payment service, where the query does not fail.
unfoldable pub list_invoices : Request → Payment.World → Response (List Payment.Invoice)
list_invoices q w =
    json 200 (Payment.list_for (header "X-User-Role" q.headers) (header "X-User-Email" q.headers) w)

-- `list` of the notification service, where the query does not fail.
unfoldable pub list_notifications :
    Request → List Notification.Notification → Response (List Notification.Notification)
list_notifications q ns = json 200 (Notification.list (header "X-User-Email" q.headers) ns)

-- The author that `publish` of the rules service records.
unfoldable pub created_by : Request → String
created_by q =
    if header "X-User-Email" q.headers =t "" then "unknown" else header "X-User-Email" q.headers

-- The layouts that `parseTimestamp` tries: `time.RFC3339`, and those of a `datetime-local` input.
abbrev pub layouts : List String
layouts = "2006-01-02T15:04:05Z07:00" ∷ "2006-01-02T15:04:05" ∷ "2006-01-02T15:04" ∷ []

abbrev pub first_some : {A B : Type 0} → (A → Option B) → List A → Option B
first_some f [] = none
first_some f (x ∷ xs) = elim (f x) [ none ↦ first_some f xs | some y ↦ some y ]

-- What `photo` sends: the headers that it sets and the bytes of the object, or an error.
pub data PhotoResponse : Type 0 where
  streamed : (headers : List (String × String)) → (content : String) → PhotoResponse
  photo_failure : (status : ℕ) → (message : String) → PhotoResponse

unfoldable pub photo_response : Option Violation.Photo → PhotoResponse
photo_response none = photo_failure 404 "photo not found"
photo_response (some p) =
    streamed
      (set "Cache-Control" "private, max-age=3600"
        (if p.content_type =t "" then [] else set "Content-Type" p.content_type []))
      p.content

module _ (rt : Runtime) where
  -- `photo` of the violation service.
  unfoldable pub get_photo : (id : String) → Violation.World rt → PhotoResponse
  unfolding photo_response
  get_photo id w = photo_response (Violation.photo rt id w)

  -- `list` of the violation service, where the query does not fail.
  unfoldable pub list_violations :
      Request → Violation.World rt → Response (List (Violation.Violation rt))
  list_violations q w =
      json 200
        (Violation.list_for rt (header "X-User-Role" q.headers) (header "X-User-Email" q.headers) w)

  unfoldable pub get_response : Violation.Answer rt → Response (Violation.Violation rt)
  get_response (Violation.ok v) = json 200 v
  get_response (Violation.err Violation.not_found) = failure 404 "violation not found"
  get_response (Violation.err Violation.invalid_input) = failure 500 "internal error"
  get_response (Violation.err Violation.internal) = failure 500 "internal error"

  -- `get` of the violation service.
  unfoldable pub get_violation :
      (id : String) → Request → Violation.World rt → Response (Violation.Violation rt)
  unfolding get_response
  get_violation id q w =
      get_response
        (Violation.get rt id (header "X-User-Role" q.headers) (header "X-User-Email" q.headers) w)

  unfoldable pub create_response : Violation.Answer rt → Response (Violation.Violation rt)
  create_response (Violation.ok v) = json 201 v
  create_response (Violation.err Violation.invalid_input) = failure 400 "invalid violation details"
  create_response (Violation.err Violation.not_found) = failure 502 "could not create violation"
  create_response (Violation.err Violation.internal) = failure 502 "could not create violation"

  -- `parseTimestamp`: the time that the first layout gives which reads the text.
  unfoldable pub parse_timestamp : Violation.Library rt → String → Option rt.Time
  parse_timestamp lib s =
      if s =t "" then none else first_some (λ layout. lib.parse layout s) layouts

  -- The values of the form of `create`.
  pub record Form : Type 0 where
    pub plate : String
    pub violation_type : String
    pub location : String
    pub occurred_at : String

  -- `create` of the violation service; the issuer is the caller.
  unfoldable pub create_violation :
      Violation.Library rt
      → Violation.Env rt
      → Option Form
      → Option Violation.Photo
      → Request
      → Violation.World rt
      → Response (Violation.Violation rt) × Violation.World rt
  unfolding create_response parse_timestamp
  create_violation lib env none photo q w = (failure 400 "invalid multipart form", w)
  create_violation lib env (some f) photo q w = elim (parse_timestamp lib f.occurred_at) [
    | none ↦ (failure 400 "invalid occurred_at timestamp", w)
    | some t ↦
        let (answer, w') =
          Violation.create rt lib env
            (record {
              plate = f.plate;
              violation_type = f.violation_type;
              location = f.location;
              occurred_at = t;
              issued_by_email = header "X-User-Email" q.headers;
            })
            photo w in
        (create_response answer, w')
  ]

  unfoldable pub active_response : Rules.Answer rt → Response (Rules.Version rt)
  active_response (Rules.ok v) = json 200 v
  active_response Rules.no_active = failure 404 "no active ruleset"
  active_response Rules.internal = failure 500 "internal error"
  active_response (Rules.invalid e) = failure 500 "internal error"

  -- `active` of the rules service.
  unfoldable pub active_rules :
      Rules.Env → Rules.State rt → Response (Rules.Version rt) × Rules.State rt
  unfolding active_response
  active_rules env s = let (answer, s') = Rules.active rt env s in (active_response answer, s')

  -- The answer to a publication, with the text of a validation error.
  unfoldable pub publish_response :
      (InvalidRuleset → String) → Rules.Answer rt → Response (Rules.Version rt)
  publish_response show (Rules.ok v) = json 201 v
  publish_response show (Rules.invalid e) = failure 400 (show e)
  publish_response show Rules.no_active = failure 500 "internal error"
  publish_response show Rules.internal = failure 500 "internal error"

  -- `publish` of the rules service.
  unfoldable pub publish_rules :
      (InvalidRuleset → String)
      → Rules.Env
      → (id : String) → Option (Ruleset rt.Float)
      → Request
      → Rules.State rt
      → Response (Rules.Version rt) × Rules.State rt
  unfolding publish_response created_by
  publish_rules show env id none q s = (failure 400 "invalid request body", s)
  publish_rules show env id (some rules) q s =
      let (answer, s') = Rules.publish rt env id rules (created_by q) s in
      (publish_response show answer, s')

  -- `list` of the rules service, where the query does not fail.
  unfoldable pub list_versions : Rules.State rt → Response (List (Rules.Version rt))
  list_versions s = json 200 s.versions
