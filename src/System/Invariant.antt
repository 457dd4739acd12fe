-- ===== src/System/Invariant.antt =====
-- The services together: what holds of their tables in every state that can be reached.
use swiftmind_parking_portal.Common.{
  String, ◌≡◌, ◌≢◌, sym, ap, ◌∙◌, some, inl, inr, eq_iff, Any, find?-test, find?-holds, Any-All,
  Any-imp,
}
use mathlib.Core.Option.{some-injective}
use swiftmind_parking_portal.Fine.Platform.{Runtime}
use swiftmind_parking_portal.Violation
use swiftmind_parking_portal.Violation.{stored, created}
use swiftmind_parking_portal.Payment.{Invoice}
use swiftmind_parking_portal.Notification
use swiftmind_parking_portal.System.{
  System, Step, seeded, issued, invoiced, paid, settled, told_created, told_completed, Reach, here,
  next,
}
use swiftmind_parking_portal.System.Ledger.{IsPaidFor}
use swiftmind_parking_portal.System.Links.{Linked, IsBilled, IsJustified}
use swiftmind_parking_portal.System.Issued.{
  same-Linked, seed_plate-same, create-Linked, settle_violation-Linked,
}
use swiftmind_parking_portal.System.Charged.{open_invoice-Linked, pay-Linked}
use swiftmind_parking_portal.System.News.{told_created-Linked, told_completed-Linked}

module _ (rt : Runtime) (lib : Violation.Library rt) (texts : Notification.Library) where
  Step-Linked : {s t : System rt} → Step rt lib texts s t → Linked rt s → Linked rt t
  Step-Linked (seeded plate owner s) l =
      let (v, e) = seed_plate-same rt plate owner s.violation in same-Linked rt s _ l v e
  Step-Linked (issued env i photo s n) l = create-Linked rt lib env i photo s n l
  Step-Linked (invoiced id evt s h n) l = open_invoice-Linked rt id evt s h n l
  Step-Linked (paid env id scenario caller s) l = pay-Linked rt env id scenario caller s l
  Step-Linked (settled evt s h) l = settle_violation-Linked rt evt s h l
  Step-Linked (told_created env evt s h) l = told_created-Linked rt texts env evt s h l
  Step-Linked (told_completed env evt s h) l = told_completed-Linked rt texts env evt s h l

  -- From linked tables, such as empty ones, any sequence of requests and of deliveries of published
  -- events, repeated and in any order, reaches linked tables: identifiers find their rows; every event
  -- and every invoice is that of the violation with its identifier; every completed payment is of a
  -- paid invoice; a violation is unpaid unless a paid invoice of it exists; and every notification goes
  -- to the owner of the plate or to the officer of the violation it names.
  pub Reach-Linked : {s t : System rt} → Linked rt s → Reach rt lib texts s t → Linked rt t
  Reach-Linked l here = l
  Reach-Linked l (next r st) = Step-Linked st (Reach-Linked l r)

  -- The invoice is paid, and is that of the violation.
  abbrev pub Settles : Violation.Violation rt → Invoice → Type 0
  Settles v i =
      (i.status ≡ "paid")
      × (i.violation_id ≡ v.id)
      × (i.amount ≡ v.final_amount)
      × (i.owner_email ≡ v.owner_email)

  -- Whatever has been requested and delivered since the tables were linked, a violation that is found
  -- and is not unpaid has a paid invoice for its final amount and its owner.
  pub paid-Settles :
      {s t : System rt} (id : String) (v : Violation.Violation rt)
      → Linked rt s
      → Reach rt lib texts s t
      → stored rt id t.violation ≡ some v
      → v.payment_status ≢ "unpaid"
      → Any (Settles v) t.payment.invoices
  unfolding stored
  paid-Settles {t = t} id v l r f n =
      let k = Reach-Linked l r in
      let same_id : v.id ≡ id = (eq_iff v.id id).0 (find?-test _ t.violation.violations v f) in
      let j =
        find?-holds (IsJustified rt t.payment.invoices) _ t.violation.violations v f k.justified in
      elim j [
        | inl e ↦ absurd (n e)
        | inr h ↦
            Any-imp t.payment.invoices
              (λ i p.
                let (h1, h2) = p in
                let (a, b) = h1 in
                let (u, found, fields) = h2 in
                let same : u ≡ v =
                  some-injective u v
                    (sym found ∙ ap (λ x. stored rt x t.violation) (b ∙ same_id) ∙ f) in
                (
                  a,
                  b,
                  ap (λ x. x.amount) fields ∙ ap (λ x. x.final_amount) same,
                  ap (λ x. x.owner_email) fields ∙ ap (λ x. x.owner_email) same,
                ))
              (Any-All (IsPaidFor v.id) (IsBilled rt t.violation) t.payment.invoices h k.billed)
      ]
