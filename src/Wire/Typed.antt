-- ===== src/Wire/Typed.antt =====
-- The answers of the services, and the types that the web application gives to them in
-- web/src/lib/types.ts.
use swiftmind_parking_portal.Common.{
  String, ◌≡◌, refl, inl, inr, true, Bool-cases, Option-cases, List, find?, ◌=t◌, All, All-imp,
  All-map, All-select, if◌then◌else◌,
}
use swiftmind_parking_portal.Fine.Platform.{Runtime}
use swiftmind_parking_portal.Violation
use swiftmind_parking_portal.Violation.{created, attach_photo_url}
use swiftmind_parking_portal.Payment
use swiftmind_parking_portal.Payment.{Invoice, invoice_of, create_invoice_from_event}
use swiftmind_parking_portal.Notification
use swiftmind_parking_portal.System.{System, Reach}
use swiftmind_parking_portal.Wire.{
  Encoder, violations_body, invoices_body, encode_violation, encode_invoice,
}
use swiftmind_parking_portal.Wire.Shapes.{conforms, list_shape, violation_shape, invoice_shape}
use swiftmind_parking_portal.Wire.Rows.{
  IsTypedViolation, IsTypedInvoice, items-conforms, violation-conforms, invoice-conforms,
}
use swiftmind_parking_portal.Wire.Kept.{IsTyped, Reach-IsTyped}

module _ (rt : Runtime) where
  listed-IsTyped :
      (owner : String) (w : Violation.World rt)
      → All (IsTypedViolation rt) w.violations
      → All (IsTypedViolation rt) (Violation.list_violations rt owner w)
  unfolding Violation.list_violations
  listed-IsTyped owner w h = elim (Bool-cases (owner =t "")) [
    | inl e ↦ rw (e, Violation.list_violations) h
    | inr e ↦
        rw (e, Violation.list_violations)
          (All-imp _ (λ v k. k.0) (All-select (IsTypedViolation rt) _ w.violations h))
  ]

  attach_photo_url-IsTyped :
      (v : Violation.Violation rt)
      → IsTypedViolation rt v
      → IsTypedViolation rt (attach_photo_url rt v)
  unfolding attach_photo_url
  attach_photo_url-IsTyped v h = elim (Bool-cases (v.photo_object =t "")) [
    | inl e ↦ rw (e, attach_photo_url) h
    | inr e ↦ rw (e, attach_photo_url) h
  ]

  violations-IsTyped :
      (role email : String) (s : System rt)
      → IsTyped rt s
      → All (IsTypedViolation rt) (Violation.list_for rt role email s.violation)
  unfolding Violation.list_for
  violations-IsTyped role email s t =
      let owner = if role =t "member" then email else "" in
      All-map (IsTypedViolation rt) (attach_photo_url rt)
        (Violation.list_violations rt owner s.violation)
        (All-imp _ attach_photo_url-IsTyped (listed-IsTyped owner s.violation t.violations))

  join-IsTyped :
      (ps : List Payment.Payment) (i : Invoice)
      → IsTypedInvoice i
      → IsTypedInvoice (Payment.join ps i)
  join-IsTyped ps i h = elim (Option-cases (find? (Payment.is_paid_for i.id) ps)) [
    | inl e ↦ rw (e, Payment.join) h
    | inr (p, e) ↦ rw (e, Payment.join) h
  ]

  owned-IsTyped :
      (owner : String) (w : Payment.World)
      → All IsTypedInvoice w.invoices
      → All IsTypedInvoice (Payment.list_invoices owner w)
  unfolding Payment.list_invoices
  owned-IsTyped owner w h = elim (Bool-cases (owner =t "")) [
    | inl e ↦
        rw (e, Payment.list_invoices)
          (All-map IsTypedInvoice (Payment.join w.payments) w.invoices
            (All-imp _ (join-IsTyped w.payments) h))
    | inr e ↦
        rw (e, Payment.list_invoices)
          (All-map IsTypedInvoice (Payment.join w.payments) _ (
            All-imp _ (λ i k. join-IsTyped w.payments i k.0)
              (All-select IsTypedInvoice _ w.invoices h)))
  ]

  -- In every state that is reached from tables whose violation types and statuses are known, such
  -- as empty ones, whoever asks for the lists of violations and of invoices gets JSON of the types
  -- `{ violations: Violation[] }` and `{ invoices: Invoice[] }` of the web application.
  pub Reach-conforms :
      (e : Encoder rt) (lib : Violation.Library rt) (texts : Notification.Library) {s t : System rt}
      (role email : String)
      → IsTyped rt s
      → Reach rt lib texts s t
      → (conforms
            (list_shape "violations" violation_shape)
            (violations_body rt e (Violation.list_for rt role email t.violation))
          ≡ true)
        × (conforms
              (list_shape "invoices" invoice_shape)
              (invoices_body rt e (Payment.list_for role email t.payment))
            ≡ true)
  unfolding conforms violations_body invoices_body Payment.list_for
  Reach-conforms e lib texts {t = t} role email h r =
      let k = Reach-IsTyped rt lib texts h r in
      (
        rw
            (items-conforms violation_shape (encode_violation rt e)
              (Violation.list_for rt role email t.violation)
              (All-imp _ (violation-conforms rt e) (violations-IsTyped role email t k)))
            refl,
        rw
            (items-conforms invoice_shape (encode_invoice rt e)
              (Payment.list_for role email t.payment)
              (All-imp _ (invoice-conforms rt e)
                (owned-IsTyped (if role =t "member" then email else "") t.payment k.invoices)))
            refl,
      )
