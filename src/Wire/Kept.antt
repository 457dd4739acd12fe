-- ===== src/Wire/Kept.antt =====
-- The services together: the violation types and the statuses in the tables stay among the literals of
-- web/src/lib/types.ts.
use swiftmind_parking_portal.Common.{
  String, ◌≡◌, refl, inl, inr, Bool, true, false, Option, List, ◌∷◌, ◌=t◌, All, All-imp, All-map,
  if◌then◌else◌, arith,
}
use swiftmind_parking_portal.Events.{ViolationCreated, PaymentCompleted}
use swiftmind_parking_portal.Fine.Platform.{Runtime}
use swiftmind_parking_portal.Violation
use swiftmind_parking_portal.Violation.{created, attach_photo_url}
use swiftmind_parking_portal.Violation.Issuing.{create-Outcome}
use swiftmind_parking_portal.Payment
use swiftmind_parking_portal.Payment.{Invoice, invoice_of, create_invoice_from_event}
use swiftmind_parking_portal.Payment.Effect.{pay-IsEffect}
use swiftmind_parking_portal.Notification
use swiftmind_parking_portal.System.{
  System, Step, seeded, issued, invoiced, paid, settled, told_created, told_completed, Reach, here,
  next, IsIn, open_invoice, settle_violation,
}
use swiftmind_parking_portal.System.Issued.{seed_plate-same, IsIn-All}
use swiftmind_parking_portal.System.Ledger.{create_invoice_from_event-cases}
use swiftmind_parking_portal.Wire.Rows.{IsKnown, IsTypedViolation, IsTypedInvoice}

module _ (rt : Runtime) where
  pub record IsTyped (s : System rt) : Type 0 where
    pub violations : All (IsTypedViolation rt) s.violation.violations
    pub events : All (λ evt. IsKnown evt.violation_type) s.violation.events
    pub invoices : All IsTypedInvoice s.payment.invoices

  is_valid_input-IsKnown :
      (lib : Violation.Library rt) (i : Violation.CreateInput rt)
      → Violation.is_valid_input rt lib i ≡ true
      → IsKnown i.violation_type
  is_valid_input-IsKnown lib i h = ground arith

  published-IsTyped :
      (publishes : Bool) (v : Violation.Violation rt) (es : List ViolationCreated)
      → IsKnown v.violation_type
      → All (λ evt. IsKnown evt.violation_type) es
      → All (λ evt. IsKnown evt.violation_type) (if publishes then created rt v ∷ es else es)
  published-IsTyped true v es k h = (k, h)
  published-IsTyped false v es k h = h

  create-IsTyped :
      (lib : Violation.Library rt) (env : Violation.Env rt) (i : Violation.CreateInput rt)
      (photo : Option Violation.Photo) (s : System rt)
      → IsTyped s
      → IsTyped (record s { violation = (Violation.create rt lib env i photo s.violation).1 })
  create-IsTyped lib env i photo s t = elim (create-Outcome rt lib env i photo s.violation) [
    | inl (e, _, k) ↦ record {
      violations = rw k.same_violations t.violations;
      events = rw k.same_events t.events;
      invoices = t.invoices;
    }
    | inr (active, b, key, _, valid, _, k) ↦
        let known = is_valid_input-IsKnown lib i valid in
        record {
          violations = rw k.adds ((known, inl refl), t.violations);
          events = rw k.events (
              published-IsTyped env.publishes
                (Violation.row_of rt env i active b key
                  (Violation.owner_of_plate rt i.plate s.violation))
                s.violation.events known t.events);
          invoices = t.invoices;
        }
  ]

  mark-IsTyped :
      (here : Bool) (v : Violation.Violation rt)
      → IsTypedViolation rt v
      → IsTypedViolation rt (if here then record v { payment_status = "paid" } else v)
  mark-IsTyped true v (k, p) = (k, inr refl)
  mark-IsTyped false v h = h

  settle_violation-IsTyped :
      (evt : PaymentCompleted) (s : System rt) → IsTyped s → IsTyped (settle_violation rt evt s)
  unfolding settle_violation Violation.mark_paid
  settle_violation-IsTyped evt s t = record {
    violations = All-map (IsTypedViolation rt) _ s.violation.violations (
        All-imp s.violation.violations (λ v h. mark-IsTyped (v.id =t evt.violation_id) v h)
          t.violations);
    events = t.events;
    invoices = t.invoices;
  }

  invoices-IsTyped :
      (s : System rt) (p : Payment.World)
      → All IsTypedInvoice p.invoices
      → IsTyped s
      → IsTyped (record s { payment = p })
  invoices-IsTyped s p h t = record { violations = t.violations; events = t.events; invoices = h }

  open_invoice-IsTyped :
      (id : String) (evt : ViolationCreated) (s : System rt)
      → IsIn rt evt s.violation.events
      → IsTyped s
      → IsTyped (open_invoice rt id evt s)
  unfolding open_invoice
  open_invoice-IsTyped id evt s h t = elim (create_invoice_from_event-cases id evt s.payment) [
    | inl (e, _) ↦
        invoices-IsTyped s _
          (rw e (
            (
              IsIn-All rt (λ x. IsKnown x.violation_type) evt s.violation.events h t.events,
              inl refl,
            ),
            t.invoices,
          ))
          t
    | inr (e, _, _) ↦ invoices-IsTyped s _ (rw e t.invoices) t
  ]

  pay_mark-IsTyped :
      (here : Bool) (i : Invoice)
      → IsTypedInvoice i
      → IsTypedInvoice (if here then record i { status = "paid" } else i)
  pay_mark-IsTyped true i (k, p) = (k, inr refl)
  pay_mark-IsTyped false i h = h

  pay-IsTyped :
      (env : Payment.Env) (id scenario caller : String) (s : System rt)
      → IsTyped s
      → IsTyped (record s { payment = (Payment.pay env id scenario caller s.payment).1 })
  unfolding Payment.mark_paid
  pay-IsTyped env id scenario caller s t = elim (pay-IsEffect env id scenario caller s.payment) [
    | inl (i, e) ↦ invoices-IsTyped s _ (rw i t.invoices) t
    | inr (inv, k, inl (i, e)) ↦ invoices-IsTyped s _ (rw i t.invoices) t
    | inr (inv, k, inr (txn, i, e)) ↦
        invoices-IsTyped s _
          (rw i (
            All-map IsTypedInvoice _ s.payment.invoices (
              All-imp s.payment.invoices (λ j h. pay_mark-IsTyped (j.id =t inv.id) j h)
                t.invoices)))
          t
  ]

  module _ (lib : Violation.Library rt) (texts : Notification.Library) where
    Step-IsTyped : {s t : System rt} → Step rt lib texts s t → IsTyped s → IsTyped t
    Step-IsTyped (seeded plate owner s) t =
        let (v, e) = seed_plate-same rt plate owner s.violation in
        record { violations = rw v t.violations; events = rw e t.events; invoices = t.invoices }
    Step-IsTyped (issued env i photo s n) t = create-IsTyped lib env i photo s t
    Step-IsTyped (invoiced id evt s h n) t = open_invoice-IsTyped id evt s h t
    Step-IsTyped (paid env id scenario caller s) t = pay-IsTyped env id scenario caller s t
    Step-IsTyped (settled evt s h) t = settle_violation-IsTyped evt s t
    Step-IsTyped (told_created env evt s h) t = record {
      violations = t.violations;
      events = t.events;
      invoices = t.invoices;
    }
    Step-IsTyped (told_completed env evt s h) t = record {
      violations = t.violations;
      events = t.events;
      invoices = t.invoices;
    }

    pub Reach-IsTyped : {s t : System rt} → IsTyped s → Reach rt lib texts s t → IsTyped t
    Reach-IsTyped h here = h
    Reach-IsTyped h (next r st) = Step-IsTyped st (Reach-IsTyped h r)
