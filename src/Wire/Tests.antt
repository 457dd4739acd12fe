-- ===== src/Wire/Tests.antt =====
-- The answers of the services as JSON, at concrete inputs.
use swiftmind_parking_portal.Common.{◌≡◌, refl, true}
use swiftmind_parking_portal.Fine.Sample.{in_quarters}
use swiftmind_parking_portal.Violation
use swiftmind_parking_portal.Payment
use swiftmind_parking_portal.System.Sample.{lib, texts, empty, done, done-Reach}
use swiftmind_parking_portal.Handlers.{Response, failure}
use swiftmind_parking_portal.Web.Http.{str, settle}
use swiftmind_parking_portal.Wire.{
  singleton, sent, invoices_body, violations_body, encode_pay_result,
}
use swiftmind_parking_portal.Wire.Shapes.{conforms, list_shape, invoice_shape, violation_shape}
use swiftmind_parking_portal.Wire.Kept.{IsTyped}
use swiftmind_parking_portal.Wire.Typed.{Reach-conforms}
use swiftmind_parking_portal.Wire.Transport.{meaning, settle-sent}
use swiftmind_parking_portal.Wire.Sample.{encoder, write, reads, reads-Carries}

empty-IsTyped : IsTyped in_quarters empty
empty-IsTyped = record { violations = tt; events = tt; invoices = tt }

Reach-conforms_example :
    (conforms (list_shape "violations" violation_shape) (
        violations_body in_quarters encoder
          (Violation.list_for in_quarters "member" "member@parkwatch.test" done.violation))
      ≡ true)
    × (conforms (list_shape "invoices" invoice_shape) (
          invoices_body in_quarters encoder
            (Payment.list_for "member" "member@parkwatch.test" done.payment))
        ≡ true)
Reach-conforms_example =
    Reach-conforms in_quarters encoder lib texts "member" "member@parkwatch.test" empty-IsTyped
      done-Reach

abbrev refused : Response Payment.PayResult
refused = failure 403 "not your invoice"

settle-sent_example :
    settle
      (reads (singleton "error" (str "not your invoice")) "not your invoice")
      (sent write (encode_pay_result in_quarters encoder) refused)
    ≡ meaning (encode_pay_result in_quarters encoder) refused
settle-sent_example =
    settle-sent (reads (singleton "error" (str "not your invoice")) "not your invoice") write
      (encode_pay_result in_quarters encoder) refused
      (refl, reads-Carries (singleton "error" (str "not your invoice")) "not your invoice", refl)
