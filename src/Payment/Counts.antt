-- ===== src/Payment/Counts.antt =====
-- internal/payment/store.go: the successful payments of an invoice, counted, and its status.
use mathlib.Core.Path.{subst}
use swiftmind_parking_portal.Common.{
  ℕ, ◌+◌, String, ◌≡◌, ◌≢◌, refl, sym, ap, ◌∙◌, Bool, true, false, none, some, List, [], ◌∷◌, inl,
  inr, All, arith, eq_iff, ◌=t◌, if◌then◌else◌, map, find?, find?-All, Option-cases,
}
use swiftmind_parking_portal.Payment.{
  Invoice, Payment, World, is_paid_for, join, get, proceed, check,
}

-- The number of successful payments of an invoice.
abbrev pub paid_count : String → List Payment → ℕ
paid_count id [] = 0
paid_count id (p ∷ ps) = if is_paid_for id p then paid_count id ps + 1 else paid_count id ps

-- An invoice has one successful payment if it is paid, and none if it is not.
abbrev pub IsSettledOnce : List Payment → Invoice → Type 0
IsSettledOnce ps i = paid_count i.id ps ≡ (if i.status =t "paid" then 1 else 0)

abbrev pub IsConsistent : World → Type 0
IsConsistent w = All (IsSettledOnce w.payments) w.invoices

-- A payment that did not succeed changes no count.
pub failed-IsConsistent :
    (p : Payment) (ps : List Payment) (invs : List Invoice)
    → p.status ≢ "paid"
    → All (IsSettledOnce ps) invs
    → All (IsSettledOnce (p ∷ ps)) invs
failed-IsConsistent p ps [] h c = tt
failed-IsConsistent p ps (i ∷ invs) h c =
    (ground (arith, eq_iff p.status "paid"), failed-IsConsistent p ps invs h c.1)

-- One row when a successful payment comes in: `here` says that it is the payment's invoice.
row-IsSettledOnce :
    (here : Bool) (p : Payment) (ps : List Payment) (i : Invoice)
    → (i.id =t p.invoice_id) ≡ here
    → p.status ≡ "paid"
    → paid_count p.invoice_id ps ≡ 0
    → IsSettledOnce ps i
    → IsSettledOnce (p ∷ ps) (if here then record i { status = "paid" } else i)
row-IsSettledOnce true p ps i e h z c =
    let same : i.id ≡ p.invoice_id = (eq_iff i.id p.invoice_id).0 e in
    let none_before : paid_count i.id ps ≡ 0 = rw same z in
    ground (arith, eq_iff p.invoice_id i.id, eq_iff p.status "paid")
row-IsSettledOnce false p ps i e h z c =
    ground (arith, eq_iff i.id p.invoice_id, eq_iff p.invoice_id i.id)

-- A successful payment of an invoice that had none, which is marked paid at once.
pub paid-IsConsistent :
    (p : Payment) (ps : List Payment) (invs : List Invoice)
    → p.status ≡ "paid"
    → paid_count p.invoice_id ps ≡ 0
    → All (IsSettledOnce ps) invs
    → All
        (IsSettledOnce (p ∷ ps))
        (map (λ i. if i.id =t p.invoice_id then record i { status = "paid" } else i) invs)
paid-IsConsistent p ps [] h z c = tt
paid-IsConsistent p ps (i ∷ invs) h z c =
    (row-IsSettledOnce _ p ps i refl h z c.0, paid-IsConsistent p ps invs h z c.1)

pub join-same :
    (ps : List Payment) (i : Invoice)
    → ((join ps i).id ≡ i.id)
      × ((join ps i).status ≡ i.status)
      × ((join ps i).owner_email ≡ i.owner_email)
join-same ps i = elim (Option-cases (find? (is_paid_for i.id) ps)) [
  | inl e ↦ rw (e, join) (refl, refl, refl)
  | inr (p, e) ↦ rw (e, join) (refl, refl, refl)
]

-- What `check` has established of an invoice that may be charged.
pub check-proceed :
    (caller : String) (found inv : Invoice)
    → check caller (some found) ≡ proceed inv
    → (found ≡ inv) × (found.status ≢ "paid") × (found.owner_email ≡ caller) × (caller ≢ "")
unfolding check
check-proceed caller found inv h =
    ground (arith, eq_iff caller "", eq_iff found.owner_email caller, eq_iff found.status "paid")

pub check-none : (caller : String) (inv : Invoice) → check caller none ≡ proceed inv → ⊥
unfolding check
check-none caller inv h = ground arith

-- An invoice that can be charged has no successful payment yet.
pub proceed-unpaid :
    (id caller : String) (w : World) (inv : Invoice)
    → IsConsistent w
    → check caller (get id w) ≡ proceed inv
    → paid_count inv.id w.payments ≡ 0
unfolding get
proceed-unpaid id caller w inv c h = elim (Option-cases (find? (λ i. i.id =t id) w.invoices)) [
  | inl e ↦ absurd (check-none caller inv (rw (e, get) at h))
  | inr (row, e) ↦
      let (same, once) =
        find?-All (IsSettledOnce w.payments) (λ i. i.id =t id) w.invoices row e c in
      let (found, unpaid, _, _) =
        check-proceed caller (join w.payments row) inv (rw (e, get) at h) in
      let (same_id, same_status, _) = join-same w.payments row in
      let open_row : row.status ≢ "paid" = λ p. unpaid (same_status ∙ p) in
      let counted : paid_count row.id w.payments ≡ 0 = ground (arith, eq_iff row.status "paid") in
      subst (λ i. paid_count i w.payments ≡ 0) (sym same_id ∙ ap (λ i. i.id) found) counted
]
