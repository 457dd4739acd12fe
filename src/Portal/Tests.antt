-- ===== src/Portal/Tests.antt =====
-- Calls of the web application, all the way, at concrete inputs.
use swiftmind_parking_portal.Common.{
  ◌≡◌, ◌≢◌, refl, sym, map, Any, String, true, false, none, some, List, [], ◌∷◌, arith, eq_iff, inl,
  ◌=t◌, if◌then◌else◌,
}
use mathlib.Core.Path.{subst}
use swiftmind_parking_portal.Common.Int.{pos}
use swiftmind_parking_portal.Fine.Sample.{in_quarters}
use swiftmind_parking_portal.Gateway.{Claims, Config, dispatch}
use swiftmind_parking_portal.Web.Client.{path, options}
use swiftmind_parking_portal.Payment
use swiftmind_parking_portal.Payment.{working}
use swiftmind_parking_portal.Payment.Accepted.{Works}
use swiftmind_parking_portal.Handlers.{json}
use swiftmind_parking_portal.Web.Sample.{sample_host}
use swiftmind_parking_portal.Web.Types.{Invoice}
use swiftmind_parking_portal.Web.Markup.{Offers, Shows}
use swiftmind_parking_portal.Web.Effect.{Arrived, Query, Mutation}
use swiftmind_parking_portal.Web.Http.{Js}
use swiftmind_parking_portal.Web.Page.Pay.{PayVars}
use swiftmind_parking_portal.Web.Page.Pay
use swiftmind_parking_portal.Web.Page.Receipt
use swiftmind_parking_portal.Web.Page.Pay.Buttons.{IsPaying, IsPayable, view-Offers-pay}
use swiftmind_parking_portal.Wire.Reading.{web_invoice}
use swiftmind_parking_portal.Portal.Invoices.{page_invoices-list}
use swiftmind_parking_portal.Wire.{invoices_body}
use swiftmind_parking_portal.Wire.Sample.{encoder, write, reads, reads-Carries}
use swiftmind_parking_portal.System.Sample.{pays}
use swiftmind_parking_portal.Portal.{page_invoices, pay_call}
use swiftmind_parking_portal.Portal.Paying.{picked, IsAccepted, offered-IsAccepted}
use swiftmind_parking_portal.Portal.Receipt.{pay-receipt}

abbrev member : Claims
member = record { user_id = "2"; email = "member@parkwatch.test"; name = "Mike"; role = "member" }

abbrev config : Config
config = record {
  cookie_name = "access_token";
  trim_prefix = λ p s. none;
  verify = λ t. if t =t "m" then some member else none;
}

abbrev open_invoice : Payment.Invoice
open_invoice = record {
  id = "inv-1";
  violation_id = "v-1";
  plate = "B1234ABC";
  violation_type = "expired_meter";
  owner_email = "member@parkwatch.test";
  issued_by_email = "officer@parkwatch.test";
  amount = pos 50000;
  status = "open";
  transaction_id = "";
}

abbrev world : Payment.World
world = record { invoices = open_invoice ∷ []; payments = []; locks = []; events = [] }

-- A JavaScript that reads the invoices of this world.
abbrev js_of : Payment.World → Js
js_of w =
    reads (invoices_body in_quarters encoder (Payment.list_for "member" "member@parkwatch.test" w))
      ""

abbrev query_of : Payment.World → Query (List (Invoice sample_host.Num))
query_of w = record {
  is_pending = false;
  is_error = false;
  result = page_invoices (js_of w) write sample_host in_quarters encoder config "m" w;
}

abbrev idle : Mutation PayVars
idle = record { is_pending = false; variables = none }

abbrev vars : PayVars
vars = record { id = "inv-1"; scenario = "failed" }

abbrev picks : List (String × String)
picks = ("inv-1", "failed") ∷ []

works : Works pays "inv-1" world
unfolding Payment.acquire_lock
works = record { got = refl; inserted = refl; marked = refl; locked = (_, refl) }

member-named : ◌≢◌ {A = String} "member@parkwatch.test" ""
member-named = ground (arith, eq_iff "member@parkwatch.test" "")

inv-filled : ◌≢◌ {A = String} "inv-1" ""
inv-filled = ground (arith, eq_iff "inv-1" "")

page_invoices-world :
    page_invoices (js_of world) write sample_host in_quarters encoder config "m" world
    ≡ some (map (web_invoice sample_host in_quarters encoder) (open_invoice ∷ []))
unfolding Payment.list_for
page_invoices-world =
    page_invoices-list sample_host (js_of world) write in_quarters encoder config "m" member world
      refl refl
      (reads-Carries
        (invoices_body in_quarters encoder
          (Payment.list_for "member" "member@parkwatch.test" world))
        "")

not-IsPaying : (id : String) → ¬ IsPaying idle id
not-IsPaying id h = cc

page-Offers : Offers (Pay.pay vars) (Pay.view sample_host true (picked picks) idle (query_of world))
unfolding Pay.handle
page-Offers = (view-Offers-pay sample_host true (picked picks) idle (query_of world) vars).1 (
  refl,
  (
    refl,
    subst (Arrived (Any (IsPayable sample_host (picked picks) idle vars))) (sym page_invoices-world)
        (inl (ground (arith, eq_iff "open" "paid"), not-IsPaying "inv-1", refl, refl)),
  ),
)

offered-IsAccepted_example : IsAccepted pays config "m" vars world
offered-IsAccepted_example =
    offered-IsAccepted sample_host (js_of world) write in_quarters encoder config "m" member world
      pays true picks idle (query_of world) vars refl refl refl member-named (refl, tt)
      (reads-Carries
        (invoices_body in_quarters encoder
          (Payment.list_for "member" "member@parkwatch.test" world))
        "")
      refl (refl, tt) page-Offers refl inv-filled works

abbrev paid_world : Payment.World
paid_world = (pay_call pays config "m" "inv-1" "success" world).1

abbrev result : Payment.PayResult
result = record {
  status = "paid";
  transaction_id = "txn_1";
  invoice = record open_invoice { status = "paid" };
}

pay_call-world : (pay_call pays config "m" "inv-1" "success" world).0 ≡ some (json 200 result)
unfolding pay_call dispatch path options Payment.pay
pay_call-world = refl

pay-receipt_example :
    Offers Receipt.print_receipt (Receipt.view sample_host true "inv-1" (query_of paid_world))
    × Shows "txn_1" (Receipt.view sample_host true "inv-1" (query_of paid_world))
pay-receipt_example =
    pay-receipt sample_host in_quarters encoder (js_of paid_world) write config "m" member pays
      "inv-1" world result (query_of paid_world) refl refl refl refl inv-filled pay_call-world
      (ground (arith, eq_iff "txn_1" ""))
      (
        reads-Carries
            (invoices_body in_quarters encoder
              (Payment.list_for "member" "member@parkwatch.test" paid_world))
            "",
        refl,
      )
      refl
