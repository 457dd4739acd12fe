-- ===== src/Web/Client/Tests.antt =====
-- The calls of the client at concrete inputs.
use swiftmind_parking_portal.Common.{arith, eq_iff, ◌=t◌, if◌then◌else◌, ◌≡◌, refl, some, none, []}
use swiftmind_parking_portal.Web.Http.{build_init}
use swiftmind_parking_portal.Web.Client.{
  CreateViolationInput, create_violation, pay_invoice, options, path,
}
use swiftmind_parking_portal.Gateway.{Claims, Config, dispatch}
use swiftmind_parking_portal.Web.Client.Routing.{arrives, purpose, dispatch-arrives}

abbrev reported : CreateViolationInput
reported = record {
  plate = "B1234ABC";
  violation_type = "expired_meter";
  location = "Jl. Sudirman";
  occurred_at = "2025-01-01T08:00";
  photo = none;
}

path-pay_invoice : path (pay_invoice "inv-1" "success") ≡ "/invoices/inv-1/pay"
unfolding path
path-pay_invoice = refl

abbrev member : Claims
member = record { user_id = "2"; email = "member@parkwatch.test"; name = "Mike"; role = "member" }

abbrev config : Config
config = record {
  cookie_name = "access_token";
  trim_prefix = λ p s. none;
  verify = λ t. if t =t "good" then some member else none;
}

dispatch-arrives_example :
    dispatch config (arrives config "good" (pay_invoice "inv-1" "success"))
    ≡ purpose member
        (pay_invoice "inv-1" "success")
        (arrives config "good" (pay_invoice "inv-1" "success"))
dispatch-arrives_example =
    dispatch-arrives config "good" member (pay_invoice "inv-1" "success") refl refl
      (refl, ground (arith, eq_iff "inv-1" ""), refl)

-- The browser sets the Content-Type of a form.
build_init-form : (build_init (options (create_violation reported))).headers ≡ some []
unfolding build_init options
build_init-form = refl
