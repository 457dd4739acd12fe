-- ===== src/System/Charged.antt =====
-- The services together: what the payment service does keeps the tables linked.
use swiftmind_parking_portal.Common.{
  String, ◌≡◌, ap, inl, inr, Bool, true, false, none, List, find?, if◌then◌else◌, ◌=t◌, All,
  All-imp, All-map, IsKeyedBy, IsKeyedBy-insert, IsKeyedBy-map,
}
use swiftmind_parking_portal.Events.{ViolationCreated, PaymentCompleted}
use swiftmind_parking_portal.Fine.Platform.{Runtime}
use swiftmind_parking_portal.Violation
use swiftmind_parking_portal.Violation.{stored, created}
use swiftmind_parking_portal.Payment
use swiftmind_parking_portal.Payment.{
  Invoice, invoice_of, mark_paid, create_invoice_from_event, pay,
}
use swiftmind_parking_portal.Payment.Effect.{pay-IsEffect}
use swiftmind_parking_portal.System.{System, IsIn, open_invoice}
use swiftmind_parking_portal.System.Ledger.{
  IsCompleted, IsPaidFor, IsPaidFor-Continues, IsCompleted-Lasts, Lasts, Lasts-refl, Lasts-Any,
  mark, mark-same_id, mark_paid-Lasts, create_invoice_from_event-cases,
  create_invoice_from_event-events, create_invoice_from_event-Lasts, check-row,
  publish_completed-IsCompleted,
}
use swiftmind_parking_portal.System.Links.{IsAnnounced, IsBilled, IsJustified, Linked}
use swiftmind_parking_portal.System.Issued.{IsIn-All}

module _ (rt : Runtime) where
  IsJustified-Lasts :
      (invs invs' : List Invoice) (v : Violation.Violation rt)
      → Lasts invs invs'
      → IsJustified rt invs v
      → IsJustified rt invs' v
  IsJustified-Lasts invs invs' v l (inl h) = inl h
  IsJustified-Lasts invs invs' v l (inr h) =
      inr (Lasts-Any (IsPaidFor v.id) invs invs' (λ i j c k. IsPaidFor-Continues v.id i j c k) l h)

  -- The payment service has gone from the world of `s` to `p`.
  payment-Linked :
      (s : System rt) (p : Payment.World)
      → Linked rt s
      → Lasts s.payment.invoices p.invoices
      → IsKeyedBy (λ i. i.id) p.invoices
      → All (IsBilled rt s.violation) p.invoices
      → All (IsCompleted p.invoices) p.events
      → Linked rt (record s { payment = p })
  payment-Linked s p l h k b c = record {
    keyed = l.keyed;
    announced = l.announced;
    justified =
        All-imp s.violation.violations
          (λ v j. IsJustified-Lasts s.payment.invoices p.invoices v h j) l.justified;
    ledger = k;
    billed = b;
    completions = c;
    news = l.news;
  }

  IsCompleted-all :
      (invs invs' : List Invoice) (es : List PaymentCompleted)
      → Lasts invs invs'
      → All (IsCompleted invs) es
      → All (IsCompleted invs') es
  IsCompleted-all invs invs' es h c = All-imp es (λ e k. IsCompleted-Lasts invs invs' e h k) c

  -- Neither the invoices nor the events change.
  same-Linked :
      (s : System rt) (p : Payment.World)
      → Linked rt s
      → p.invoices ≡ s.payment.invoices
      → p.events ≡ s.payment.events
      → Linked rt (record s { payment = p })
  same-Linked s p l i e =
      payment-Linked s p l (rw i (Lasts-refl s.payment.invoices)) (rw i l.ledger) (rw i l.billed)
        (rw (i, e) l.completions)

  -- The invoice of an event is that of the violation that the event announces.
  invoice_of-IsBilled :
      (id : String) (evt : ViolationCreated) (w : Violation.World rt)
      → IsAnnounced rt w evt
      → IsBilled rt w (record (invoice_of id evt) { status = "open" })
  invoice_of-IsBilled id evt w (v, p, q) =
      (v, p, ap (λ e. record (invoice_of id e) { status = "open" }) q)

  pub open_invoice-Linked :
      (id : String) (evt : ViolationCreated) (s : System rt)
      → IsIn rt evt s.violation.events
      → find? (λ i. i.id =t id) s.payment.invoices ≡ none
      → Linked rt s
      → Linked rt (open_invoice rt id evt s)
  unfolding open_invoice
  open_invoice-Linked id evt s h n l =
      let p = s.payment in
      let same_events = create_invoice_from_event-events id evt p in
      let more = create_invoice_from_event-Lasts id evt p in
      elim (create_invoice_from_event-cases id evt p) [
        | inl (e, _) ↦
            payment-Linked s (create_invoice_from_event id evt p) l more
              (rw e (IsKeyedBy-insert (λ i. i.id) _ p.invoices n l.ledger))
              (rw e (
                invoice_of-IsBilled id evt s.violation
                    (IsIn-All rt (IsAnnounced rt s.violation) evt s.violation.events h l.announced),
                l.billed,
              ))
              (rw same_events (IsCompleted-all p.invoices _ p.events more l.completions))
        | inr (e, _, _) ↦ same-Linked s (create_invoice_from_event id evt p) l e same_events
      ]

  mark-IsBilled :
      (here : Bool) (w : Violation.World rt) (i : Invoice)
      → IsBilled rt w i
      → IsBilled rt w (if here then record i { status = "paid" } else i)
  mark-IsBilled true w i (v, p, q) =
      (v, p, ap {A = Invoice} {B = Invoice} (λ j. record j { status = "paid" }) q)
  mark-IsBilled false w i b = b

  pub pay-Linked :
      (env : Payment.Env) (id scenario caller : String) (s : System rt)
      → Linked rt s
      → Linked rt (record s { payment = (pay env id scenario caller s.payment).1 })
  unfolding mark_paid
  pay-Linked env id scenario caller s l =
      let p = s.payment in
      elim (pay-IsEffect env id scenario caller p) [
        | inl (i, e) ↦ same-Linked s _ l i e
        | inr (inv, k, inl (i, e)) ↦ same-Linked s _ l i e
        | inr (inv, k, inr (txn, i, e)) ↦
            let (row, found, fields, _, _) = check-row id caller p inv k in
            payment-Linked s _ l (rw i (mark_paid-Lasts inv.id p))
              (rw i
                (IsKeyedBy-map (λ j. j.id) (mark inv.id) p.invoices (mark-same_id inv.id) l.ledger))
              (rw i (
                All-map (IsBilled rt s.violation) (mark inv.id) p.invoices (
                  All-imp p.invoices (λ j b. mark-IsBilled (j.id =t inv.id) s.violation j b)
                    l.billed)))
              (rw (i, e)
                (publish_completed-IsCompleted env.publishes id txn inv row p found fields
                  l.completions))
      ]
