-- ===== src/Portal.antt =====
-- The whole way of a call: a function of web/src/lib, the gateway, the routes and the handler of the
-- service, and back to the promise. `none` is a request that nobody answers.
pub mod Invoices
pub mod Paying
pub mod Receipt
pub mod Session
pub mod News
pub mod Photo
mod Tests
use swiftmind_parking_portal.Common.{String, Option, none, some, List, [], ◌∷◌, if◌then◌else◌, ◌=t◌}
use swiftmind_parking_portal.Fine.Platform.{Runtime}
use swiftmind_parking_portal.Gateway.{
  Config, Request, violations, payments, Outcome, error, user, forwarded, dispatch,
}
use swiftmind_parking_portal.Violation
use swiftmind_parking_portal.Payment
use swiftmind_parking_portal.Identity.{PublicUser}
use swiftmind_parking_portal.Handlers.{Response, json, failure}
use swiftmind_parking_portal.Handlers
use swiftmind_parking_portal.Web.Host.{Host}
use swiftmind_parking_portal.Web.Types.{User, Invoice}
use swiftmind_parking_portal.Web.Http
use swiftmind_parking_portal.Web.Http.{Json, Js}
use swiftmind_parking_portal.Web.Client.{list_invoices, pay_invoice, get_violation, me}
use swiftmind_parking_portal.Web.Client.Routing.{arrives}
use swiftmind_parking_portal.Wire.{Encoder, invoices_body, user_body, sent}
use swiftmind_parking_portal.Wire.Reading.{invoices_outcome, user_outcome}

-- The route of `list` in the payment service.
unfoldable pub invoices_answer : Outcome → Payment.World → Option (Response (List Payment.Invoice))
unfolding Handlers.list_invoices
invoices_answer (forwarded payments q) w = some (Handlers.list_invoices q w)
invoices_answer (error status message) w = some (failure status message)
invoices_answer _ w = none

-- The route `/{id}/pay` of the payment service.
abbrev pay_route :
    Payment.Env
    → (scenario : String) → (path : List String) → Request
    → Payment.World
    → Option (Response Payment.PayResult) × Payment.World
pay_route env scenario (id ∷ (action ∷ [])) q w =
    let (r, w') = Handlers.pay env id (some scenario) q w in
    if action =t "pay" then (some r, w') else (none, w)
pay_route env scenario _ q w = (none, w)

unfoldable pub pay_answer :
    Payment.Env
    → (scenario : String) → Outcome
    → Payment.World
    → Option (Response Payment.PayResult) × Payment.World
unfolding Handlers.pay
pay_answer env scenario (forwarded payments q) w = pay_route env scenario q.path q w
pay_answer env scenario (error status message) w = (some (failure status message), w)
pay_answer env scenario _ w = (none, w)

-- `me` of the gateway.
unfoldable pub me_answer : Outcome → Option (Response PublicUser)
me_answer (user c) =
    some (json 200 (record { id = c.user_id; email = c.email; name = c.name; role = c.role }))
me_answer (error status message) = some (failure status message)
me_answer _ = none

-- The `data` of a query whose promise has settled.
abbrev pub data_of : {A : Type 0} → Option (Http.Outcome A) → Option A
data_of none = none
data_of (some (Http.ok a)) = some a
data_of (some (Http.api_error status message)) = none
data_of (some (Http.other_error message)) = none

module _ (js : Js) (write : Json → String) where
  -- The promise of `api("/auth/me")`.
  unfoldable pub me_outcome : Config → (token : String) → Option (Http.Outcome User)
  unfolding me_answer user_outcome arrives
  me_outcome cfg token = elim (me_answer (dispatch cfg (arrives cfg token me))) [
    | none ↦ none
    | some r ↦ user_outcome js (sent write user_body r)
  ]

  module _ (host : Host) (rt : Runtime) (e : Encoder rt) where
    -- The invoices that a page has, after its query has asked with a token.
    unfoldable pub page_invoices :
        Config → (token : String) → Payment.World → Option (List (Invoice host.Num))
    unfolding invoices_answer invoices_outcome arrives
    page_invoices cfg token w =
        elim (invoices_answer (dispatch cfg (arrives cfg token list_invoices)) w) [
          | none ↦ none
          | some r ↦ data_of (invoices_outcome host js (sent write (invoices_body rt e) r))
        ]

-- `payInvoice` with a token.
unfoldable pub pay_call :
    Payment.Env
    → Config
    → (token id scenario : String) → Payment.World
    → Option (Response Payment.PayResult) × Payment.World
unfolding pay_answer arrives
pay_call env cfg token id scenario w =
    pay_answer env scenario (dispatch cfg (arrives cfg token (pay_invoice id scenario))) w

module _ (rt : Runtime) where
  -- The route `/{id}` of the violation service.
  abbrev get_route :
      (path : List String)
      → Request
      → Violation.World rt
      → Option (Response (Violation.Violation rt))
  get_route (id ∷ []) q w = some (Handlers.get_violation rt id q w)
  get_route _ q w = none

  unfoldable pub get_answer :
      Outcome → Violation.World rt → Option (Response (Violation.Violation rt))
  unfolding Handlers.get_violation
  get_answer (forwarded violations q) w = get_route q.path q w
  get_answer (error status message) w = some (failure status message)
  get_answer _ w = none

  -- `getViolation` with a token.
  unfoldable pub get_call :
      Config → (token id : String) → Violation.World rt → Option (Response (Violation.Violation rt))
  unfolding get_answer arrives
  get_call cfg token id w = get_answer (dispatch cfg (arrives cfg token (get_violation id))) w
