-- ===== src/System/Refinement.antt =====
-- The services together, as a register of fines: what each request and each delivery does to it.
use mathlib.Core.Option.{some-injective}
use swiftmind_parking_portal.Common.{
  String, ◌≡◌, ◌≢◌, refl, sym, ap, ◌∙◌, ◌⊎◌, inl, inr, Bool, false, Bool-cases, Option, none, some,
  List, map, arith, eq_iff, ◌=t◌, =t_refl, find?, find?-holds, find?-test, All, All-imp, Any-find?,
  IsKeyedBy, by_key,
}
use swiftmind_parking_portal.Events.{ViolationCreated}
use swiftmind_parking_portal.Common.Int.{ℤ}
use swiftmind_parking_portal.Fine.Platform.{Runtime}
use swiftmind_parking_portal.Violation
use swiftmind_parking_portal.Violation.{stored, created, mark_paid}
use swiftmind_parking_portal.Violation.Issuing.{Inserts, create-Outcome}
use swiftmind_parking_portal.Payment
use swiftmind_parking_portal.Payment.{Invoice, invoice_of, pay}
use swiftmind_parking_portal.Payment.Effect.{pay-IsEffect}
use swiftmind_parking_portal.Notification
use swiftmind_parking_portal.System.{
  System, Step, seeded, issued, invoiced, paid, settled, told_created, told_completed, open_invoice,
  settle_violation,
}
use swiftmind_parking_portal.System.Tables.{stored-insert, stored-mark_paid}
use swiftmind_parking_portal.System.Ledger.{mark, check-row, create_invoice_from_event-cases}
use swiftmind_parking_portal.System.Links.{Linked, IsBilled}
use swiftmind_parking_portal.System.Issued.{seed_plate-same}
use swiftmind_parking_portal.System.Register.{
  Entry, Actor, officer, nobody, member, Change, stays, opens, settles, any_paid,
  any_paid-mark_other, any_paid-mark, entry_of, register, entry_of-mark, entry_of-same,
  any_paid-unknown,
}

module _ (rt : Runtime) where
  -- The violations are the same.
  same-violations :
      (s : System rt) (w : Violation.World rt) (a : Actor)
      → w.violations ≡ s.violation.violations
      → Change a (register rt s) (register rt (record s { violation = w }))
  unfolding register stored
  same-violations s w a e = stays (λ id. rw e refl)

  insert-opens :
      (publishes : Bool) (row : Violation.Violation rt) (s : System rt)
      (r : Violation.Answer rt × Violation.World rt)
      → Linked rt s
      → stored rt row.id s.violation ≡ none
      → Inserts rt publishes row s.violation r
      → Change officer (register rt s) (register rt (record s { violation = r.1 }))
  unfolding register entry_of
  insert-opens publishes row s r l n k =
      let there = λ (id : String). stored-insert rt id row s.violation r.1 k.adds in
      opens row.id row.owner_email row.final_amount (rw n refl)
        (rw (there row.id, =t_refl row.id, any_paid-unknown rt row.id s n l.billed) refl)
        (λ j e.
          let other : (row.id =t j) ≡ false = ground (arith, eq_iff row.id j) in
          rw (there j, other) refl)

  open_invoice-any_paid :
      (j id : String) (evt : ViolationCreated) (p : Payment.World)
      → any_paid j (Payment.create_invoice_from_event id evt p).invoices ≡ any_paid j p.invoices
  unfolding any_paid
  open_invoice-any_paid j id evt p = elim (create_invoice_from_event-cases id evt p) [
    | inl (e, _) ↦ rw e (ground arith)
    | inr (e, _, _) ↦ rw e refl
  ]

  -- Who asks for a step.
  unfoldable pub actor :
      (lib : Violation.Library rt) (texts : Notification.Library) {s t : System rt}
      → Step rt lib texts s t
      → Actor
  actor lib texts (seeded plate owner s) = nobody
  actor lib texts (issued env i photo s n) = officer
  actor lib texts (invoiced id evt s h n) = nobody
  actor lib texts (paid env id scenario caller s) = member caller
  actor lib texts (settled evt s h) = nobody
  actor lib texts (told_created env evt s h) = nobody
  actor lib texts (told_completed env evt s h) = nobody

  -- The invoices with the identifier of a row are that row.
  mark-others :
      (id j : String) (row : Invoice) (invs : List Invoice)
      → IsKeyedBy (λ i. i.id) invs
      → find? (λ i. i.id =t id) invs ≡ some row
      → j ≢ row.violation_id
      → All (λ i. (i.id ≢ row.id) ⊎ (i.violation_id ≢ j)) invs
  mark-others id j row invs k found n =
      let same_id : row.id ≡ id = (eq_iff row.id id).0 (find?-test _ invs row found) in
      All-imp invs
        (λ i h. elim (Bool-cases (i.id =t row.id)) [
          | inl e ↦
              let here : i.id ≡ id = (eq_iff i.id row.id).0 e ∙ same_id in
              let same : i ≡ row =
                some-injective i row (sym h ∙ ap (λ x. by_key (λ y. y.id) x invs) here ∙ found) in
              inr (λ q. n (sym q ∙ ap (λ x. x.violation_id) same))
          | inr e ↦ inl (ground (arith, eq_iff i.id row.id, e))
        ])
        k

  same_entry :
      (o o' : String) (amount : ℤ) (b b' : Bool)
      → o ≡ o'
      → b ≡ b'
      → ◌≡◌ {A = Option Entry}
          (some (record { owner = o; amount = amount; is_settled = b }))
          (some (record { owner = o'; amount = amount; is_settled = b' }))
  same_entry o o' amount b b' h k = rw (h, k) refl

  mark-settles :
      (id caller : String) (inv row : Invoice) (s : System rt) (p : Payment.World)
      → Linked rt s
      → find? (λ i. i.id =t id) s.payment.invoices ≡ some row
      → inv ≡ record row { transaction_id = inv.transaction_id }
      → row.owner_email ≡ caller
      → p.invoices ≡ map (mark inv.id) s.payment.invoices
      → Change (member caller) (register rt s) (register rt (record s { payment = p }))
  unfolding register entry_of
  mark-settles id caller inv row s p l found fields owner i =
      let invs = s.payment.invoices in
      let same_id : inv.id ≡ row.id = ap (λ x. x.id) fields in
      let (v, f, d) = find?-holds (IsBilled rt s.violation) _ invs row found l.billed in
      let payer : v.owner_email ≡ caller = sym (ap (λ x. x.owner_email) d) ∙ owner in
      settles row.violation_id caller v.final_amount (any_paid row.violation_id invs)
        (rw (f, entry_of) (same_entry _ _ _ _ _ payer refl))
        (rw (f, entry_of, i)
          (same_entry _ _ _ _ _ payer (
            any_paid-mark inv.id row invs (Any-find? (λ x. x ≡ row) _ invs row found refl)
              (sym same_id))))
        (λ j n. entry_of-same rt j invs p.invoices (stored rt j s.violation) (
          rw (i, same_id)
            (any_paid-mark_other j row.id invs (mark-others id j row invs l.ledger found n))))

  pay-Change :
      (env : Payment.Env) (id scenario caller : String) (s : System rt)
      → Linked rt s
      → Change
          (member caller)
          (register rt s)
          (register rt (record s { payment = (pay env id scenario caller s.payment).1 }))
  unfolding register Payment.mark_paid
  pay-Change env id scenario caller s l =
      let p = s.payment in
      elim (pay-IsEffect env id scenario caller p) [
        | inl (i, e) ↦ stays (λ j. rw i refl)
        | inr (inv, k, inl (i, e)) ↦ stays (λ j. rw i refl)
        | inr (inv, k, inr (txn, i, e)) ↦
            let (row, found, fields, owner, _) = check-row id caller p inv k in
            mark-settles id caller inv row s (pay env id scenario caller s.payment).1 l found fields
              owner i
      ]

  -- From linked tables, every step of the services is a step of the register: it issues one fine that
  -- was not there, it settles one fine, on a request of its owner, or it changes no fine.
  pub Step-Change :
      (lib : Violation.Library rt) (texts : Notification.Library) {s t : System rt}
      (step : Step rt lib texts s t)
      → Linked rt s
      → Change (actor lib texts step) (register rt s) (register rt t)
  unfolding register settle_violation open_invoice actor
  Step-Change lib texts (seeded plate owner s) l =
      same-violations s (Violation.seed_plate rt plate owner s.violation) nobody
        (seed_plate-same rt plate owner s.violation).0
  Step-Change lib texts (issued env i photo s n) l =
      elim (create-Outcome rt lib env i photo s.violation) [
        | inl (e, _, k) ↦ same-violations s _ officer k.same_violations
        | inr (active, b, key, _, _, _, k) ↦ insert-opens env.publishes _ s _ l n k
      ]
  Step-Change lib texts (invoiced id evt s h n) l = stays (λ j.
      entry_of-same rt j s.payment.invoices _ (stored rt j s.violation)
        (open_invoice-any_paid j id evt s.payment))
  Step-Change lib texts (paid env id scenario caller s) l = pay-Change env id scenario caller s l
  Step-Change lib texts (settled evt s h) l = stays (λ j.
      ap (entry_of rt j s.payment.invoices) (stored-mark_paid rt j evt.violation_id s.violation)
      ∙ entry_of-mark rt j evt.violation_id s.payment.invoices (stored rt j s.violation))
  Step-Change lib texts (told_created env evt s h) l = stays (λ j. refl)
  Step-Change lib texts (told_completed env evt s h) l = stays (λ j. refl)
