-- ===== src/System/Tables.antt =====
-- internal/{violation,payment}/store.go: what the operations of the services leave of the rows.
use mathlib.Core.Option
use swiftmind_parking_portal.Common.{
  String, ◌≡◌, refl, ap, ◌⊎◌, inl, inr, Bool, true, false, Bool-cases, Option, none, some, ◌∷◌,
  find?, find?-map, ◌=t◌, eq_iff, arith, if◌then◌else◌,
}
use swiftmind_parking_portal.Fine.Platform.{Runtime}
use swiftmind_parking_portal.Violation.{Violation, World, stored, mark_paid}

module _ (rt : Runtime) where
  -- The same violation, perhaps paid by now.
  abbrev pub Continues : Violation rt → Violation rt → Type 0
  Continues v v' = (v' ≡ v) ⊎ (v' ≡ record v { payment_status = "paid" })

  -- A violation that was found is still found.
  abbrev pub Follows : Option (Violation rt) → Option (Violation rt) → Type 0
  Follows none o = Unit
  Follows (some v) o = (v' : Violation rt) × (o ≡ some v') × Continues v v'

  pub Extends : World rt → World rt → Type 0
  Extends w w' = (id : String) → Follows (stored rt id w) (stored rt id w')

  Follows-refl : (o : Option (Violation rt)) → Follows o o
  Follows-refl none = tt
  Follows-refl (some v) = (v, refl, inl refl)

  pub Extends-refl : (w w' : World rt) → w'.violations ≡ w.violations → Extends w w'
  unfolding Extends stored
  Extends-refl w w' h id = rw h (Follows-refl (find? (λ v. v.id =t id) w.violations))

  -- The row that `mark_paid` makes of a row.
  abbrev pub mark : String → Violation rt → Violation rt
  mark id v = if v.id =t id then record v { payment_status = "paid" } else v

  pub mark-same_id : (id : String) (v : Violation rt) → (mark id v).id ≡ v.id
  mark-same_id id v = elim (Bool-cases (v.id =t id)) [ inl e ↦ rw e refl | inr e ↦ rw e refl ]

  mark-Continues :
      (here : Bool) (v : Violation rt)
      → Continues v (if here then record v { payment_status = "paid" } else v)
  mark-Continues true v = inr refl
  mark-Continues false v = inl refl

  pub stored-mark_paid :
      (id j : String) (w : World rt)
      → stored rt id (mark_paid rt j w) ≡ Option.map (mark j) (stored rt id w)
  unfolding stored mark_paid
  stored-mark_paid id j w =
      find?-map (λ v. v.id =t id) (mark j) w.violations (λ v. ap (λ i. i =t id) (mark-same_id j v))

  Follows-map : (j : String) (o : Option (Violation rt)) → Follows o (Option.map (mark j) o)
  Follows-map j none = tt
  Follows-map j (some v) = (mark j v, refl, mark-Continues (v.id =t j) v)

  pub mark_paid-Extends : (j : String) (w : World rt) → Extends w (mark_paid rt j w)
  unfolding Extends
  mark_paid-Extends j w id = rw (stored-mark_paid id j w) (Follows-map j (stored rt id w))

  -- A row with a new identifier comes first.
  pub stored-insert :
      (id : String) (row : Violation rt) (w w' : World rt)
      → w'.violations ≡ row ∷ w.violations
      → stored rt id w' ≡ (if row.id =t id then some row else stored rt id w)
  unfolding stored
  stored-insert id row w w' h = elim (Bool-cases (row.id =t id)) [
    | inl e ↦ rw (h, e, find?) refl
    | inr e ↦ rw (h, e, find?) refl
  ]

  Follows-new :
      (here : Bool) (row : Violation rt) (o : Option (Violation rt))
      → (here ≡ false) ⊎ (o ≡ none)
      → Follows o (if here then some row else o)
  Follows-new here row none h = tt
  Follows-new true row (some v) h = ground arith
  Follows-new false row (some v) h = (v, refl, inl refl)

  pub insert-Extends :
      (row : Violation rt) (w w' : World rt)
      → w'.violations ≡ row ∷ w.violations
      → stored rt row.id w ≡ none
      → Extends w w'
  unfolding Extends
  insert-Extends row w w' h n id = elim (Bool-cases (row.id =t id)) [
    | inl e ↦
        rw (stored-insert id row w w' h)
          (Follows-new (row.id =t id) row (stored rt id w) (inr (rw ((eq_iff row.id id).0 e) at n)))
    | inr e ↦
        rw (stored-insert id row w w' h) (Follows-new (row.id =t id) row (stored rt id w) (inl e))
  ]

  -- What holds of the violation that was found, paid or not, holds of the one that is found now.
  pub Extends-carries :
      (w w' : World rt) (id : String) (v : Violation rt) (P : Violation rt → Type 0)
      → Extends w w'
      → stored rt id w ≡ some v
      → P v
      → P (record v { payment_status = "paid" })
      → (v' : Violation rt) × (stored rt id w' ≡ some v') × P v'
  unfolding Extends
  Extends-carries w w' id v P h e p q =
      let k : Follows (some v) (stored rt id w') = rw e at (h id) in
      elim k.2 [ inl c ↦ (k.0, k.1, rw c p) | inr c ↦ (k.0, k.1, rw c q) ]
