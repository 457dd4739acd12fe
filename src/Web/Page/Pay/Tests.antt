-- ===== src/Web/Page/Pay/Tests.antt =====
-- The payment page at concrete inputs.
use swiftmind_parking_portal.Common.{◌≡◌, ◌↔◌, true, false, none, some, List, [], ◌∷◌}
use swiftmind_parking_portal.Web.Sample.{sample_host}
use swiftmind_parking_portal.Web.Types.{Invoice}
use swiftmind_parking_portal.Web.Markup.{Offers}
use swiftmind_parking_portal.Web.Effect.{Query, Mutation}
use swiftmind_parking_portal.Web.Page.Pay.{PayVars, pay, Scenarios, view}
use swiftmind_parking_portal.Web.Page.Pay.Buttons.{HasPayable, view-Offers-pay}

abbrev open_invoice : Invoice sample_host.Num
open_invoice = record {
  id = "inv-1";
  violation_id = "v-1";
  plate = "B1234ABC";
  violation_type = "expired_meter";
  owner_email = "member@parkwatch.test";
  amount = 50000;
  status = "open";
  transaction_id = none;
  created_at = "2025-01-01T08:00:00Z";
}

abbrev scenarios : Scenarios
scenarios = ("inv-1", "failed") ∷ []

abbrev idle : Mutation PayVars
idle = record { is_pending = false; variables = none }

abbrev arrived : Query (List (Invoice sample_host.Num))
arrived = record { is_pending = false; is_error = false; result = some (open_invoice ∷ []) }

abbrev failing_payment : PayVars
failing_payment = record { id = "inv-1"; scenario = "failed" }

view-Offers-pay_example :
    Offers (pay failing_payment) (view sample_host true scenarios idle arrived) ↔ (
      (true ≡ true)
      × HasPayable sample_host scenarios idle failing_payment arrived.is_pending arrived.result)
view-Offers-pay_example = view-Offers-pay sample_host true scenarios idle arrived failing_payment
