-- ===== src/Portal/Invoices.antt =====
-- web/src/lib/invoices.ts and the payment service: the invoices that the pages of a member have.
use swiftmind_parking_portal.Common.{String, ◌≡◌, refl, false, some, map, List, ◌=t◌}
use swiftmind_parking_portal.Fine.Platform.{Runtime}
use swiftmind_parking_portal.Gateway.{Claims, Config, dispatch, forward, identify}
use swiftmind_parking_portal.Payment
use swiftmind_parking_portal.Handlers.{json}
use swiftmind_parking_portal.Web.Host.{Host}
use swiftmind_parking_portal.Web.Http.{Json, Js, ok}
use swiftmind_parking_portal.Web.Client.{list_invoices}
use swiftmind_parking_portal.Web.Client.Routing.{arrives, dispatch-arrives}
use swiftmind_parking_portal.Wire.{Encoder, invoices_body, sent, pluck}
use swiftmind_parking_portal.Wire.Reading.{web_invoice, as_items-invoices, invoices_outcome}
use swiftmind_parking_portal.Wire.Transport.{Carries, settle-sent}
use swiftmind_parking_portal.Portal.{invoices_answer, page_invoices}

invoices_answer-list :
    (cfg : Config) (token : String) (c : Claims) (w : Payment.World)
    → (token =t "") ≡ false
    → cfg.verify token ≡ some c
    → invoices_answer (dispatch cfg (arrives cfg token list_invoices)) w
      ≡ some (json 200 (Payment.list_for c.role c.email w))
unfolding invoices_answer forward identify arrives Payment.list_for
invoices_answer-list cfg token c w n v = rw (dispatch-arrives cfg token c list_invoices n v tt) refl

module _ (host : Host) (js : Js) (write : Json → String) (rt : Runtime) (e : Encoder rt) where
  outcome-list :
      (is : List Payment.Invoice)
      → Carries js write (invoices_body rt e is)
      → invoices_outcome host js (sent write (invoices_body rt e) (json 200 is))
        ≡ some (ok (map (web_invoice host rt e) is))
  unfolding invoices_outcome invoices_body pluck
  outcome-list is c =
      rw (settle-sent js write (invoices_body rt e) (json 200 is) (refl, c))
        (rw (as_items-invoices host rt e is) refl)

  -- The page of a caller has the invoices that the service lists for the caller's role and email.
  pub page_invoices-list :
      (cfg : Config) (token : String) (c : Claims) (w : Payment.World)
      → (token =t "") ≡ false
      → cfg.verify token ≡ some c
      → Carries js write (invoices_body rt e (Payment.list_for c.role c.email w))
      → page_invoices js write host rt e cfg token w
        ≡ some (map (web_invoice host rt e) (Payment.list_for c.role c.email w))
  unfolding page_invoices
  page_invoices-list cfg token c w n v k =
      rw (invoices_answer-list cfg token c w n v, page_invoices)
        (rw (outcome-list (Payment.list_for c.role c.email w) k) refl)
