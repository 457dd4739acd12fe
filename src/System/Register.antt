-- ===== src/System/Register.antt =====
-- The services together as one register of fines: what a fine is, who owes it, and whether it is
-- settled.
use mathlib.Core.Option
use mathlib.Core.Option.{some-injective}
use swiftmind_parking_portal.Common.{
  String, ◌≡◌, ◌≢◌, refl, sym, ap, ◌∙◌, ◌⊎◌, inl, inr, Bool, true, false, Bool-cases, ◌&&◌, ◌||◌,
  Option, none, some, List, [], ◌∷◌, map, arith, eq_iff, ◌=t◌, All, All-imp, Any,
}
use swiftmind_parking_portal.Common.Int.{ℤ}
use swiftmind_parking_portal.Fine.Platform.{Runtime}
use swiftmind_parking_portal.Violation
use swiftmind_parking_portal.Violation.{stored, created, mark_paid}
use swiftmind_parking_portal.Payment.{Invoice}
use swiftmind_parking_portal.System.{System}
use swiftmind_parking_portal.System.Tables.{stored-insert, stored-mark_paid}
use swiftmind_parking_portal.System.Tables
use swiftmind_parking_portal.System.Ledger.{mark}
use swiftmind_parking_portal.System.Links.{IsBilled}

pub record Entry : Type 0 where
  pub owner : String
  pub amount : ℤ
  pub is_settled : Bool

abbrev pub Register : Type 0
Register = String → Option Entry

-- Who acts: an officer issues a fine, a member pays, or nobody does anything to a fine.
pub data Actor : Type 0 where
  officer nobody : Actor
  member : String → Actor

-- What may happen to a register: nothing; a new fine, not settled; or a fine settled by its owner.
pub data Change : Actor → Register → Register → Type 0 where
  stays : {a : Actor} {r r' : Register} → ((id : String) → r' id ≡ r id) → Change a r r'
  opens :
      {r r' : Register} (id owner : String) (amount : ℤ)
      → r id ≡ none
      → r' id ≡ some (record { owner = owner; amount = amount; is_settled = false })
      → ((j : String) → j ≢ id → r' j ≡ r j)
      → Change officer r r'
  settles :
      {r r' : Register} (id owner : String) (amount : ℤ) (before : Bool)
      → r id ≡ some (record { owner = owner; amount = amount; is_settled = before })
      → r' id ≡ some (record { owner = owner; amount = amount; is_settled = true })
      → ((j : String) → j ≢ id → r' j ≡ r j)
      → Change (member owner) r r'

-- A paid invoice of the violation exists.
unfoldable pub any_paid : String → List Invoice → Bool
any_paid id [] = false
any_paid id (i ∷ invs) = i.violation_id =t id && i.status =t "paid" || any_paid id invs

any_paid_none :
    (id : String) (invs : List Invoice)
    → All (λ i. i.violation_id ≢ id) invs
    → any_paid id invs ≡ false
unfolding any_paid
any_paid_none id [] h = refl
any_paid_none id (i ∷ invs) h =
    let rest = any_paid_none id invs h.1 in ground (arith, eq_iff i.violation_id id, h.0, rest)

-- The invoices that are marked are of another violation.
pub any_paid-mark_other :
    (id j : String) (invs : List Invoice)
    → All (λ i. (i.id ≢ j) ⊎ (i.violation_id ≢ id)) invs
    → any_paid id (map (mark j) invs) ≡ any_paid id invs
unfolding any_paid
any_paid-mark_other id j [] h = refl
any_paid-mark_other id j (i ∷ invs) h =
    let rest = any_paid-mark_other id j invs h.1 in
    elim (Bool-cases (i.id =t j)) [
      | inl e ↦
          let other : (i.violation_id =t id) ≡ false =
            ground (arith, eq_iff i.id j, eq_iff i.violation_id id, h.0) in
          rw (e, other, mark) rest
      | inr e ↦ rw (e, mark) (rw rest refl)
    ]

pub any_paid-mark :
    (j : String) (row : Invoice) (invs : List Invoice)
    → Any (λ i. i ≡ row) invs
    → row.id ≡ j
    → any_paid row.violation_id (map (mark j) invs) ≡ true
unfolding any_paid
any_paid-mark j row [] h e = absurd h
any_paid-mark j row (i ∷ invs) (inl h) e =
    let marked : (i.id =t j) ≡ true = ground (arith, eq_iff i.id j) in
    let here : (i.violation_id =t row.violation_id) ≡ true =
      (eq_iff i.violation_id row.violation_id).1 (ap (λ x. x.violation_id) h) in
    rw (marked, mark, here) refl
any_paid-mark j row (i ∷ invs) (inr h) e =
    let rest = any_paid-mark j row invs h e in rw rest (ground arith)

module _ (rt : Runtime) where
  unfoldable pub entry_of : String → List Invoice → Option (Violation.Violation rt) → Option Entry
  entry_of id invs none = none
  entry_of id invs (some v) =
      some
        (record { owner = v.owner_email; amount = v.final_amount; is_settled = any_paid id invs })

  -- The register that the tables of the services stand for.
  unfoldable pub register : System rt → Register
  unfolding entry_of
  register s id = entry_of id s.payment.invoices (stored rt id s.violation)

  -- Only what the violations say of their payment changes.
  pub entry_of-mark :
      (id j : String) (invs : List Invoice) (o : Option (Violation.Violation rt))
      → entry_of id invs (Option.map (Tables.mark rt j) o) ≡ entry_of id invs o
  unfolding entry_of
  entry_of-mark id j invs none = refl
  entry_of-mark id j invs (some v) = elim (Bool-cases (v.id =t j)) [
    | inl e ↦ rw (e, Tables.mark) refl
    | inr e ↦ rw (e, Tables.mark) refl
  ]

  -- The same invoices are paid, as far as the fine is concerned.
  pub entry_of-same :
      (id : String) (invs invs' : List Invoice) (o : Option (Violation.Violation rt))
      → any_paid id invs' ≡ any_paid id invs
      → entry_of id invs' o ≡ entry_of id invs o
  unfolding entry_of
  entry_of-same id invs invs' none h = refl
  entry_of-same id invs invs' (some v) h = rw h refl

  none-some :
      (v : Violation.Violation rt) → ◌≡◌ {A = Option (Violation.Violation rt)} none (some v) → ⊥
  none-some v h = cc

  no_row :
      (id : String) (i : Invoice) (v : Violation.Violation rt) (s : System rt)
      → stored rt id s.violation ≡ none
      → stored rt i.violation_id s.violation ≡ some v
      → i.violation_id ≡ id
      → ⊥
  no_row id i v s n p e = none-some v (sym n ∙ ap (λ x. stored rt x s.violation) (sym e) ∙ p)

  -- Without a violation there is no paid invoice.
  pub any_paid-unknown :
      (id : String) (s : System rt)
      → stored rt id s.violation ≡ none
      → All (IsBilled rt s.violation) s.payment.invoices
      → any_paid id s.payment.invoices ≡ false
  any_paid-unknown id s n b =
      any_paid_none id s.payment.invoices
        (All-imp s.payment.invoices (λ i k e. let (v, p, _) = k in no_row id i v s n p e) b)
