-- ===== src/System/Delivery.antt =====
-- The services together: the deliveries that are due can be made, and then every fine is invoiced and
-- every payment has reached its violation.
use swiftmind_parking_portal.Common.{
  String, ◌≡◌, refl, ◌∙◌, inl, inr, none, some, List, [], ◌∷◌, eq_iff, ◌=t◌, find?, find?-test, All,
  All-imp, All-Any_refl, Any, Any-find?,
}
use swiftmind_parking_portal.Events.{ViolationCreated, PaymentCompleted}
use swiftmind_parking_portal.Fine.Platform.{Runtime}
use swiftmind_parking_portal.Violation
use swiftmind_parking_portal.Violation.{stored}
use swiftmind_parking_portal.Payment.{Invoice, World, create_invoice_from_event}
use swiftmind_parking_portal.Notification
use swiftmind_parking_portal.System.{
  System, IsIn, invoiced, settled, Reach, here, next, open_invoice, settle_violation,
}
use swiftmind_parking_portal.System.Tables.{
  Extends-carries, mark_paid-Extends, stored-mark_paid, mark,
}
use swiftmind_parking_portal.System.Ledger.{
  Continues, IsCompleted, Lasts-Any, create_invoice_from_event-events,
  create_invoice_from_event-Lasts, create_invoice_from_event-cases,
}
use swiftmind_parking_portal.System.Links.{Linked}
use swiftmind_parking_portal.System.Issued.{IsIn-All}
use swiftmind_parking_portal.System.News.{paid_violation}
use swiftmind_parking_portal.System.Invariant.{Reach-Linked}

-- There is an invoice of the violation.
abbrev pub IsInvoiced : List Invoice → ViolationCreated → Type 0
IsInvoiced invs evt = Any (λ i. i.violation_id ≡ evt.violation_id) invs

open_invoice-IsInvoiced :
    (id : String) (evt : ViolationCreated) (w : World)
    → IsInvoiced (create_invoice_from_event id evt w).invoices evt
open_invoice-IsInvoiced id evt w = elim (create_invoice_from_event-cases id evt w) [
  | inl (e, _) ↦ rw e (inl refl)
  | inr (e, inv, f) ↦ rw e (
      Any-find? (λ i. i.violation_id ≡ evt.violation_id) _ w.invoices inv f
        ((eq_iff _ _).0 (find?-test _ w.invoices inv f)))
]

continues :
    (i j : Invoice) (e : ViolationCreated)
    → Continues i j
    → i.violation_id ≡ e.violation_id
    → j.violation_id ≡ e.violation_id
continues i j e (inl c) h = rw c h
continues i j e (inr c) h = rw c h

keeps-IsInvoiced :
    (id : String) (evt e : ViolationCreated) (w : World)
    → IsInvoiced w.invoices e
    → IsInvoiced (create_invoice_from_event id evt w).invoices e
keeps-IsInvoiced id evt e w =
    Lasts-Any (λ i. i.violation_id ≡ e.violation_id) w.invoices _ (λ i j c h. continues i j e c h)
      (create_invoice_from_event-Lasts id evt w)

module _ (rt : Runtime) where
  -- The violation of the payment is paid.
  abbrev pub IsMarked : Violation.World rt → PaymentCompleted → Type 0
  IsMarked w evt =
      (v : Violation.Violation rt) × (stored rt evt.violation_id w ≡ some v)
      × (v.payment_status ≡ "paid")

  mark-paid :
      (id : String) (v : Violation.Violation rt)
      → v.id ≡ id
      → (mark rt id v).payment_status ≡ "paid"
  mark-paid id v h = rw ((eq_iff v.id id).1 h, mark) refl

  mark_paid-IsMarked :
      (evt : PaymentCompleted) (w : Violation.World rt) (v : Violation.Violation rt)
      → stored rt evt.violation_id w ≡ some v
      → IsMarked (Violation.mark_paid rt evt.violation_id w) evt
  unfolding stored
  mark_paid-IsMarked evt w v h = (
    mark rt evt.violation_id v,
    stored-mark_paid rt evt.violation_id evt.violation_id w ∙ rw h refl,
    mark-paid evt.violation_id v ((eq_iff _ _).0 (find?-test _ w.violations v h)),
  )

  keeps-IsMarked :
      (id : String) (evt : PaymentCompleted) (w : Violation.World rt)
      → IsMarked w evt
      → IsMarked (Violation.mark_paid rt id w) evt
  keeps-IsMarked id evt w (v, p, q) =
      Extends-carries rt w (Violation.mark_paid rt id w) evt.violation_id v
        (λ u. u.payment_status ≡ "paid") (mark_paid-Extends rt id w) p q refl

  -- Deliveries, one after another, of events that were published.
  pub data Deliveries (s : System rt) : System rt → Type 0 where
    nothing : Deliveries s s
    opened :
        {t : System rt} (id : String) (evt : ViolationCreated)
        → Deliveries s t
        → IsIn rt evt s.violation.events
        → find? (λ i. i.id =t id) t.payment.invoices ≡ none
        → Deliveries s (open_invoice rt id evt t)
    marked :
        {t : System rt} (evt : PaymentCompleted)
        → Deliveries s t
        → IsIn rt evt s.payment.events
        → Deliveries s (settle_violation rt evt t)

  -- They publish nothing.
  Deliveries-events :
      {s t : System rt}
      → Deliveries s t
      → (t.violation.events ≡ s.violation.events) × (t.payment.events ≡ s.payment.events)
  unfolding open_invoice settle_violation Violation.mark_paid
  Deliveries-events nothing = (refl, refl)
  Deliveries-events (opened {t = t} id evt d i n) =
      let (a, b) = Deliveries-events d in (a, create_invoice_from_event-events id evt t.payment ∙ b)
  Deliveries-events (marked evt d i) = Deliveries-events d

  module _ (lib : Violation.Library rt) (texts : Notification.Library) where
    Deliveries-Reach : {s t : System rt} → Deliveries s t → Reach rt lib texts s t
    Deliveries-Reach nothing = here
    Deliveries-Reach (opened {t = t} id evt d i n) =
        let published : IsIn rt evt t.violation.events = rw (Deliveries-events d).0 i in
        next (Deliveries-Reach d) (invoiced id evt t published n)
    Deliveries-Reach (marked {t = t} evt d i) =
        let published : IsIn rt evt t.payment.events = rw (Deliveries-events d).1 i in
        next (Deliveries-Reach d) (settled evt t published)

    -- Completed payments, delivered one after another.
    unfoldable pub settle_all : List PaymentCompleted → System rt → System rt
    settle_all [] s = s
    settle_all (evt ∷ es) s = settle_violation rt evt (settle_all es s)

    settle_all-Deliveries :
        (es : List PaymentCompleted) (s u : System rt)
        → Deliveries s u
        → All (λ e. IsIn rt e s.payment.events) es
        → Linked rt s
        → Deliveries s (settle_all es u) × All (IsMarked (settle_all es u).violation) es
    unfolding settle_all settle_violation
    settle_all-Deliveries [] s u d h l = (d, tt)
    settle_all-Deliveries (evt ∷ es) s u d h l =
        let t = settle_all es u in
        let (r, m) = settle_all-Deliveries es s u d h.1 l in
        let k : Linked rt t = Reach-Linked rt lib texts l (Deliveries-Reach r) in
        let published : IsIn rt evt t.payment.events = rw (Deliveries-events r).1 h.0 in
        let (v, p, _, _, _) = paid_violation rt texts evt t.violation t.payment.invoices k.billed (
          IsIn-All rt (IsCompleted t.payment.invoices) evt t.payment.events published
            k.completions) in
        (
          marked evt r h.0,
          (
            mark_paid-IsMarked evt t.violation v p,
            All-imp es (λ e i. keeps-IsMarked evt.violation_id e t.violation i) m,
          ),
        )

    module _ (fresh : List Invoice → String)
        (fresh_lem : (invs : List Invoice) → find? (λ i. i.id =t fresh invs) invs ≡ none) where
      -- New violations, delivered one after another, with the identifiers that the table gives.
      unfoldable pub open_all : List ViolationCreated → System rt → System rt
      open_all [] s = s
      open_all (evt ∷ es) s =
          let t = open_all es s in open_invoice rt (fresh t.payment.invoices) evt t

      open_all-Deliveries :
          (es : List ViolationCreated) (s : System rt)
          → All (λ e. IsIn rt e s.violation.events) es
          → Deliveries s (open_all es s) × All (IsInvoiced (open_all es s).payment.invoices) es
      unfolding open_all open_invoice
      open_all-Deliveries [] s h = (nothing, tt)
      open_all-Deliveries (evt ∷ es) s h =
          let t = open_all es s in
          let (r, m) = open_all-Deliveries es s h.1 in
          let id = fresh t.payment.invoices in
          (
            opened id evt r h.0 (fresh_lem t.payment.invoices),
            (
              open_invoice-IsInvoiced id evt t.payment,
              All-imp es (λ e i. keeps-IsInvoiced id evt e t.payment i) m,
            ),
          )

      settle_all-payment :
          (es : List PaymentCompleted) (s : System rt) → (settle_all es s).payment ≡ s.payment
      unfolding settle_all settle_violation
      settle_all-payment [] s = refl
      settle_all-payment (evt ∷ es) s = settle_all-payment es s

      -- From linked tables, and so from every state that is reached from empty ones, a sequence of
      -- deliveries, of events published so far and of nothing else, leads to a state where there is an invoice for
      -- every one of the violations announced, and the violation of every one of the completed
      -- payments is found and is paid, provided that the table of invoices never runs out of
      -- identifiers. It publishes nothing new.
      pub settles_eventually :
          (s : System rt)
          → Linked rt s
          → (t : System rt) × Deliveries s t
            × (t.violation.events ≡ s.violation.events)
            × (t.payment.events ≡ s.payment.events)
            × All (IsInvoiced t.payment.invoices) t.violation.events
            × All (IsMarked t.violation) t.payment.events
      settles_eventually s l =
          let created = s.violation.events in
          let paid = s.payment.events in
          let (d, m) =
            open_all-Deliveries created s (All-Any_refl (λ x y. y ≡ x) created (λ x. refl)) in
          let u = open_all created s in
          let (q, n) =
            settle_all-Deliveries paid s u d (All-Any_refl (λ x y. y ≡ x) paid (λ x. refl)) l in
          let (same_created, same_paid) = Deliveries-events q in
          (
            settle_all paid u,
            q,
            same_created,
            same_paid,
            rw (same_created, settle_all-payment paid u) m,
            rw same_paid n,
          )
