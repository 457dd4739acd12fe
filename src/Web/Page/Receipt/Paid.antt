-- ===== src/Web/Page/Receipt/Paid.antt =====
-- web/src/app/receipt/[id]/page.tsx: only a paid invoice has a receipt.
use mathlib.Core.Path.{subst}
use mathlib.Core.Option.{some-injective}
use swiftmind_parking_portal.Common.{
  String, ◌≡◌, ◌≢◌, ◌↔◌, refl, sym, Bool, true, false, Option, none, some, List, [], ◌∷◌, inl, inr,
  arith, eq_iff, find?, ◌=t◌, Option-cases, Bool-cases,
}
use swiftmind_parking_portal.Web.Host.{Host}
use swiftmind_parking_portal.Web.Types.{Invoice}
use swiftmind_parking_portal.Web.Markup.{Offers, Shows}
use swiftmind_parking_portal.Web.Effect.{Query, Arrived}
use swiftmind_parking_portal.Web.Page.Receipt.{
  Action, print_receipt, find_invoice, print_button, line, receipt, content, view,
}

module _ (host : Host) where
  open host use {Num}

  -- The first invoice with the id, among those that have arrived.
  pub data IsFirst (id : String) (inv : Invoice Num) : List (Invoice Num) → Type 0 where
    at_head : {invs : List (Invoice Num)} → inv.id ≡ id → IsFirst id inv (inv ∷ invs)
    later :
        {other : Invoice Num} {invs : List (Invoice Num)}
        → other.id ≢ id
        → IsFirst id inv invs
        → IsFirst id inv (other ∷ invs)

  pub find?-IsFirst :
      (id : String) (invs : List (Invoice Num)) (inv : Invoice Num)
      → find? (λ i. i.id =t id) invs ≡ some inv
      → IsFirst id inv invs
  find?-IsFirst id [] inv h = cc
  find?-IsFirst id (i ∷ invs) inv h = elim (Bool-cases (i.id =t id)) [
    | inl e ↦
        let same : i ≡ inv = some-injective i inv (rw (e, find?) at h) in
        subst (λ j. IsFirst id j (i ∷ invs)) same (at_head ((eq_iff i.id id).0 e))
    | inr e ↦
        later (λ k. ground (arith, eq_iff i.id id)) (find?-IsFirst id invs inv (rw (e, find?) at h))
  ]

  IsFirst-find? :
      (id : String) (invs : List (Invoice Num)) (inv : Invoice Num)
      → IsFirst id inv invs
      → find? (λ i. i.id =t id) invs ≡ some inv
  IsFirst-find? id [] inv f = elim f [ ]
  IsFirst-find? id (i ∷ invs) inv (at_head e) =
      let same : (i.id =t id) ≡ true = (eq_iff i.id id).1 e in rw (same, find?)
  IsFirst-find? id (i ∷ invs) inv (later ne f) = elim (Bool-cases (i.id =t id)) [
    | inl e ↦ absurd (ne ((eq_iff i.id id).0 e))
    | inr e ↦ rw (e, find?) (IsFirst-find? id invs inv f)
  ]

  abbrev IsPaid : Option (Invoice Num) → Type 0
  IsPaid none = ⊥
  IsPaid (some inv) = inv.status ≡ "paid"

  print_button-Offers :
      (found : Option (Invoice Num)) → Offers print_receipt (print_button host found) ↔ IsPaid found
  unfolding print_button
  print_button-Offers none = ground arith
  print_button-Offers (some inv) = elim (Bool-cases (inv.status =t "paid")) [
    | inl e ↦ rw e ((λ h. (eq_iff inv.status "paid").0 e), λ h. inl refl)
    | inr e ↦ rw e ((λ h. absurd h), λ h. ground (arith, eq_iff inv.status "paid"))
  ]

  content-Offers :
      (pending : Bool) (found : Option (Invoice Num)) (a : Action)
      → ¬ Offers a (content host pending found)
  unfolding content
  content-Offers true found a = ground arith
  content-Offers false none a = ground arith
  content-Offers false (some inv) a = ground arith

  -- The first invoice with the id is paid.
  abbrev pub HasPaid : String → List (Invoice Num) → Type 0
  HasPaid id invs = (inv : Invoice Num) × IsFirst id inv invs × (inv.status ≡ "paid")

  IsPaid-some :
      (found : Option (Invoice Num)) (inv : Invoice Num)
      → found ≡ some inv
      → inv.status ≡ "paid"
      → IsPaid found
  IsPaid-some found inv e p = subst IsPaid (sym e) p

  HasPaid-iff :
      (id : String) (result : Option (List (Invoice Num)))
      → IsPaid (find_invoice host id result) ↔ Arrived (HasPaid id) result
  unfolding find_invoice
  HasPaid-iff id none = ((λ h. h), λ h. h)
  HasPaid-iff id (some invs) =
      (to, λ (inv, f, p). IsPaid-some _ inv (IsFirst-find? id invs inv f) p)
    where
      to : IsPaid (find? (λ i. i.id =t id) invs) → HasPaid id invs
      to h = elim (Option-cases (find? (λ i. i.id =t id) invs)) [
        | inl e ↦ absurd (rw e at h)
        | inr (inv, e) ↦ (inv, find?-IsFirst id invs inv e, rw e at h)
      ]

  -- The page offers to print exactly when it may be shown, the invoices have arrived, and the first
  -- one with the id of the address is paid.
  pub view-Offers_print :
      (ready : Bool) (id : String) (q : Query (List (Invoice Num)))
      → Offers print_receipt (view host ready id q)
        ↔ ((ready ≡ true) × Arrived (HasPaid id) q.result)
  unfolding view
  view-Offers_print false id q = ground arith
  view-Offers_print true id q =
      let found = find_invoice host id q.result in
      ground (
        arith,
        print_button-Offers found,
        content-Offers q.is_pending found print_receipt,
        HasPaid-iff id q.result,
      )

  content-Shows :
      (inv : Invoice Num) (txn : String)
      → inv.status ≡ "paid"
      → inv.transaction_id ≡ some txn
      → Shows txn (content host false (some inv))
  unfolding content receipt line
  content-Shows inv txn p t =
      let e = (eq_iff inv.status "paid").1 p in
      rw (e, content) (rw t (inr (inr (inr (inr (inr (inr (inr (inr (inl (inr refl)))))))))))

  -- The receipt of a paid invoice shows its transaction.
  pub view-Shows :
      (id : String) (q : Query (List (Invoice Num))) (invs : List (Invoice Num)) (inv : Invoice Num)
      (txn : String)
      → q.is_pending ≡ false
      → q.result ≡ some invs
      → find? (λ i. i.id =t id) invs ≡ some inv
      → inv.status ≡ "paid"
      → inv.transaction_id ≡ some txn
      → Shows txn (view host true id q)
  unfolding view find_invoice
  view-Shows id q invs inv txn n r f p t = inr (inr (rw (n, r, f) (content-Shows inv txn p t)))
