-- ===== src/System/Issued.antt =====
-- The services together: what the violation service does keeps the tables linked.
use swiftmind_parking_portal.Common.{
  String, ◌≡◌, refl, sym, ap, ◌∙◌, inl, inr, Bool, true, false, Bool-cases, Option, none, some,
  Option-cases, List, ◌∷◌, lookup, ◌=t◌, =t_refl, eq_iff, if◌then◌else◌, All, Any, All-imp, All-map,
  Any-imp, Any-gives, Any-All, IsKeyedBy-insert, IsKeyedBy-map,
}
use swiftmind_parking_portal.Events.{ViolationCreated, PaymentCompleted}
use swiftmind_parking_portal.Fine.Platform.{Runtime}
use swiftmind_parking_portal.Violation
use swiftmind_parking_portal.Violation.{stored, created, seed_plate}
use swiftmind_parking_portal.Violation.Issuing.{Inserts, create-Outcome}
use swiftmind_parking_portal.Violation.Visibility.{IsKeyed}
use swiftmind_parking_portal.Payment.{Invoice}
use swiftmind_parking_portal.System.{System, IsIn, settle_violation}
use swiftmind_parking_portal.System.Tables.{
  Extends, Extends-refl, mark, mark-same_id, mark_paid-Extends, insert-Extends, stored-insert,
}
use swiftmind_parking_portal.System.Ledger.{IsCompleted, IsPaidFor}
use swiftmind_parking_portal.System.Links.{
  IsAnnounced, IsJustified, Linked, IsAnnounced-Extends, IsBilled-Extends, IsOwnNews-Extends,
}

module _ (rt : Runtime) where
  -- The violation service has gone from the world of `s` to `w`.
  violation-Linked :
      (s : System rt) (w : Violation.World rt)
      → Linked rt s
      → Extends rt s.violation w
      → IsKeyed rt w
      → All (IsAnnounced rt w) w.events
      → All (IsJustified rt s.payment.invoices) w.violations
      → Linked rt (record s { violation = w })
  violation-Linked s w l h k a j = record {
    keyed = k;
    announced = a;
    justified = j;
    ledger = l.ledger;
    billed = All-imp s.payment.invoices (λ i b. IsBilled-Extends rt s.violation w i h b) l.billed;
    completions = l.completions;
    news = All-imp s.notifications (λ n b. IsOwnNews-Extends rt s.violation w n h b) l.news;
  }

  IsAnnounced-all :
      (w w' : Violation.World rt) (es : List ViolationCreated)
      → Extends rt w w'
      → All (IsAnnounced rt w) es
      → All (IsAnnounced rt w') es
  IsAnnounced-all w w' es h a = All-imp es (λ e b. IsAnnounced-Extends rt w w' e h b) a

  -- Neither the violations nor the events change.
  pub same-Linked :
      (s : System rt) (w : Violation.World rt)
      → Linked rt s
      → w.violations ≡ s.violation.violations
      → w.events ≡ s.violation.events
      → Linked rt (record s { violation = w })
  unfolding IsKeyed stored
  same-Linked s w l v e =
      let h = Extends-refl rt s.violation w v in
      violation-Linked s w l h (rw v l.keyed)
        (rw e (IsAnnounced-all s.violation w s.violation.events h l.announced)) (rw v l.justified)

  pub seed_plate-same :
      (plate owner : String) (w : Violation.World rt)
      → ((seed_plate rt plate owner w).violations ≡ w.violations)
        × ((seed_plate rt plate owner w).events ≡ w.events)
  unfolding seed_plate
  seed_plate-same plate owner w = elim (Option-cases (lookup plate w.plates)) [
    | inl e ↦ (rw (e, seed_plate) refl, rw (e, seed_plate) refl)
    | inr (o, e) ↦ (rw (e, seed_plate) refl, rw (e, seed_plate) refl)
  ]

  -- The event of a new row, if there is a broker, is announced.
  published-IsAnnounced :
      (publishes : Bool) (row : Violation.Violation rt) (w w' : Violation.World rt)
      → stored rt row.id w' ≡ some row
      → Extends rt w w'
      → All (IsAnnounced rt w) w.events
      → All (IsAnnounced rt w') (if publishes then created rt row ∷ w.events else w.events)
  published-IsAnnounced true row w w' e h a = ((row, e, refl), IsAnnounced-all w w' w.events h a)
  published-IsAnnounced false row w w' e h a = IsAnnounced-all w w' w.events h a

  insert-Linked :
      (publishes : Bool) (row : Violation.Violation rt) (s : System rt)
      (r : Violation.Answer rt × Violation.World rt)
      → Linked rt s
      → stored rt row.id s.violation ≡ none
      → row.payment_status ≡ "unpaid"
      → Inserts rt publishes row s.violation r
      → Linked rt (record s { violation = r.1 })
  unfolding IsKeyed stored
  insert-Linked publishes row s r l n u k =
      let w = s.violation in
      let h = insert-Extends rt row w r.1 k.adds n in
      let found : stored rt row.id r.1 ≡ some row =
        stored-insert rt row.id row w r.1 k.adds ∙ rw (=t_refl row.id) refl in
      violation-Linked s r.1 l h
        (rw k.adds (IsKeyedBy-insert (λ v. v.id) row w.violations n l.keyed))
        (rw k.events (published-IsAnnounced publishes row w r.1 found h l.announced))
        (rw k.adds (inl u, l.justified))

  pub create-Linked :
      (lib : Violation.Library rt) (env : Violation.Env rt) (i : Violation.CreateInput rt)
      (photo : Option Violation.Photo) (s : System rt)
      → stored rt env.row_id s.violation ≡ none
      → Linked rt s
      → Linked rt (record s { violation = (Violation.create rt lib env i photo s.violation).1 })
  create-Linked lib env i photo s n l = elim (create-Outcome rt lib env i photo s.violation) [
    | inl (e, _, k) ↦ same-Linked s _ l k.same_violations k.same_events
    | inr (active, b, key, _, _, _, k) ↦ insert-Linked env.publishes _ s _ l n refl k
  ]

  mark-IsJustified :
      (invs : List Invoice) (id : String) (v : Violation.Violation rt)
      → Any (IsPaidFor id) invs
      → IsJustified rt invs v
      → IsJustified rt invs (mark rt id v)
  mark-IsJustified invs id v p j = elim (Bool-cases (v.id =t id)) [
    | inl e ↦ rw (e, mark) (inr (rw ((eq_iff v.id id).0 e) p))
    | inr e ↦ rw (e, mark) j
  ]

  pub mark_paid-Linked :
      (id : String) (s : System rt)
      → Any (IsPaidFor id) s.payment.invoices
      → Linked rt s
      → Linked rt (record s { violation = Violation.mark_paid rt id s.violation })
  unfolding IsKeyed stored Violation.mark_paid
  mark_paid-Linked id s p l =
      let w = s.violation in
      let h = mark_paid-Extends rt id w in
      violation-Linked s (Violation.mark_paid rt id w) l h
        (IsKeyedBy-map (λ v. v.id) (mark rt id) w.violations (mark-same_id rt id) l.keyed)
        (IsAnnounced-all w (Violation.mark_paid rt id w) w.events h l.announced)
        (All-map (IsJustified rt s.payment.invoices) (mark rt id) w.violations
          (All-imp w.violations (λ v j. mark-IsJustified s.payment.invoices id v p j) l.justified))

  pub IsIn-All : {A : Type 0} (P : A → Type 0) (x : A) (xs : List A) → IsIn rt x xs → All P xs → P x
  IsIn-All P x xs h k = Any-gives _ xs (λ y p. rw p.0 at p.1) (Any-All (λ y. y ≡ x) P xs h k)

  pub settle_violation-Linked :
      (evt : PaymentCompleted) (s : System rt)
      → IsIn rt evt s.payment.events
      → Linked rt s
      → Linked rt (settle_violation rt evt s)
  unfolding settle_violation
  settle_violation-Linked evt s h l =
      mark_paid-Linked evt.violation_id s
        (Any-imp s.payment.invoices (λ i c. (c.0, sym (ap (λ e. e.violation_id) c.1)))
          (IsIn-All (IsCompleted s.payment.invoices) evt s.payment.events h l.completions))
        l
