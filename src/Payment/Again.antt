-- ===== src/Payment/Again.antt =====
-- internal/payment/service.go, `Pay`: paying an invoice that has been paid.
use swiftmind_parking_portal.Common.{
  String, ◌≡◌, ◌≢◌, refl, sym, ap, ◌∙◌, Bool-cases, Option-cases, true, false, Option, some, none,
  List, [], ◌∷◌, arith, eq_iff, inl, inr, ◌=t◌, map, find?, find?-test, if◌then◌else◌,
}
use swiftmind_parking_portal.Payment.{
  Invoice, World, Env, get, join, is_paid_for, charge, mark_paid, insert_payment, publish_completed,
  acquire_lock, release, ok, Checked, refuse, settled, proceed, PayResult, check, charge_invoice,
  locked_charge, resolve, valid_scenario, pay,
}
use swiftmind_parking_portal.Payment.Counts.{join-same, check-none, check-proceed}

-- The caller's own invoice, paid.
abbrev pub IsPaid : (caller : String) → Option Invoice → Type 0
IsPaid caller none = ⊥
IsPaid caller (some inv) = (inv.status ≡ "paid") × (inv.owner_email ≡ caller) × (caller ≢ "")

abbrev pub row_of : String → List Invoice → Option Invoice
row_of id invs = find? (λ i. i.id =t id) invs

-- The caller's own invoice.
abbrev pub IsOwned : (caller : String) → Option Invoice → Type 0
IsOwned caller none = ⊥
IsOwned caller (some inv) = (inv.owner_email ≡ caller) × (caller ≢ "")

row_of-mark :
    (caller id : String) (invs : List Invoice)
    → IsOwned caller (row_of id invs)
    → IsPaid caller
        (row_of id (map (λ i. if i.id =t id then record i { status = "paid" } else i) invs))
row_of-mark caller id [] h = h
row_of-mark caller id (i ∷ invs) h = elim (Bool-cases (i.id =t id)) [
  | inl e ↦
      let (owner, named) : IsOwned caller (some i) = rw (e, find?) at h in
      rw (e, find?) (rw (e, find?) (rw e (refl, owner, named)))
  | inr e ↦ rw (e, find?) (rw (e, find?) (row_of-mark caller id invs (rw (e, find?) at h)))
]

locked_charge-success :
    (env : Env) (inv : Invoice) (w : World) (r : PayResult)
    → (locked_charge env inv "success" w).0 ≡ ok r
    → (locked_charge env inv "success" w).1.invoices
      ≡ map (λ i. if i.id =t inv.id then record i { status = "paid" } else i) w.invoices
unfolding locked_charge acquire_lock release charge_invoice charge mark_paid insert_payment
    publish_completed
locked_charge-success env inv w r h = ground arith

check-settled-IsPaid :
    (caller : String) (found : Option Invoice) (r : PayResult)
    → check caller found ≡ settled r
    → IsPaid caller found
unfolding check
check-settled-IsPaid caller none r h = ground arith
check-settled-IsPaid caller (some inv) r h =
    ground (arith, eq_iff caller "", eq_iff inv.owner_email caller, eq_iff inv.status "paid")

IsPaid-check :
    (caller : String) (inv : Invoice)
    → IsPaid caller (some inv)
    → check caller (some inv)
      ≡ settled (record { status = "paid"; transaction_id = ""; invoice = inv })
unfolding check
IsPaid-check caller inv h =
    ground (arith, eq_iff caller "", eq_iff inv.owner_email caller, eq_iff inv.status "paid")

-- What `Get` adds to a row changes neither its owner nor its status.
get-IsPaid :
    (caller id : String) (w : World)
    → IsPaid caller (row_of id w.invoices)
    → IsPaid caller (get id w)
unfolding get
get-IsPaid caller id w h = elim (Option-cases (row_of id w.invoices)) [
  | inl e ↦ absurd (rw e at h)
  | inr (row, e) ↦
      let (paid, owned, named) : IsPaid caller (some row) = rw e at h in
      rw (e, get) (get_row row paid owned named)
]
  where
    get_row :
        (row : Invoice)
        → row.status ≡ "paid"
        → row.owner_email ≡ caller
        → caller ≢ ""
        → IsPaid caller (some (join w.payments row))
    get_row row paid owned named = elim (Option-cases (find? (is_paid_for row.id) w.payments)) [
      | inl e ↦ rw (e, join) (paid, owned, named)
      | inr (p, e) ↦ rw (e, join) (paid, owned, named)
    ]

-- The invoice that `check` lets through is the row that the identifier names.
pub proceed-IsOwned :
    (id caller : String) (w : World) (inv : Invoice)
    → check caller (get id w) ≡ proceed inv
    → (inv.id ≡ id) × IsOwned caller (row_of id w.invoices)
unfolding get
proceed-IsOwned id caller w inv h = elim (Option-cases (row_of id w.invoices)) [
  | inl e ↦ absurd (check-none caller inv (rw (e, get) at h))
  | inr (row, e) ↦
      let (found, _, owner, named) =
        check-proceed caller (join w.payments row) inv (rw (e, get) at h) in
      let (same_id, _, same_owner) = join-same w.payments row in
      let tested : row.id ≡ id =
        (eq_iff row.id id).0 (find?-test (λ i. i.id =t id) w.invoices row e) in
      (ap (λ i. i.id) (sym found) ∙ same_id ∙ tested, rw e (sym same_owner ∙ owner, named))
]

resolve-IsPaid :
    (env : Env) (id caller : String) (w : World) (k : Checked) (r : PayResult)
    → check caller (get id w) ≡ k
    → (resolve env "success" w k).0 ≡ ok r
    → IsPaid caller (get id (resolve env "success" w k).1)
unfolding resolve
resolve-IsPaid env id caller w (refuse e) r h k = ground arith
resolve-IsPaid env id caller w (settled x) r h k = check-settled-IsPaid caller (get id w) x h
resolve-IsPaid env id caller w (proceed inv) r h k =
    let (same_id, owned) = proceed-IsOwned id caller w inv h in
    let marked = row_of-mark caller id w.invoices owned in
    get-IsPaid caller id (locked_charge env inv "success" w).1
      (rw (locked_charge-success env inv w r k, same_id) marked)

pub pay-IsPaid :
    (env : Env) (id caller : String) (w : World) (r : PayResult)
    → (pay env id "success" caller w).0 ≡ ok r
    → IsPaid caller (get id (pay env id "success" caller w).1)
unfolding pay
pay-IsPaid env id caller w r h = elim (Bool-cases env.get_fails) [
  | inl g ↦ ground arith
  | inr g ↦ rw (g, pay) (resolve-IsPaid env id caller w _ r refl (rw (g, pay) at h))
]

IsPaid-pay :
    (env : Env) (id scenario caller : String) (w : World)
    → valid_scenario scenario ≡ true
    → env.get_fails ≡ false
    → IsPaid caller (get id w)
    → (inv : Invoice) × (get id w ≡ some inv)
      × (pay env id scenario caller w
          ≡ (ok (record { status = "paid"; transaction_id = ""; invoice = inv }), w))
unfolding pay
IsPaid-pay env id scenario caller w v g h = elim (Option-cases (get id w)) [
  | inl e ↦ absurd (rw e at h)
  | inr (inv, e) ↦
      (inv, e, rw (v, g, e, pay) (rw (IsPaid-check caller inv (rw e at h), resolve) refl))
]

-- After a payment with the scenario "success" that was answered without an error, the invoice is the
-- caller's and paid, and another `Pay` of the same caller for it, with a scenario that exists and
-- where the query works, answers paid with an empty transaction identifier and changes nothing.
pub pay-again :
    (first second : Env) (id scenario caller : String) (w : World) (r : PayResult)
    → (pay first id "success" caller w).0 ≡ ok r
    → valid_scenario scenario ≡ true
    → second.get_fails ≡ false
    → let w' = (pay first id "success" caller w).1 in
      IsPaid caller (get id w')
      × (inv : Invoice) × (get id w' ≡ some inv)
      × (pay second id scenario caller w'
          ≡ (ok (record { status = "paid"; transaction_id = ""; invoice = inv }), w'))
pay-again first second id scenario caller w r h v g =
    let paid = pay-IsPaid first id caller w r h in
    let (inv, found, answer) =
      IsPaid-pay second id scenario caller (pay first id "success" caller w).1 v g paid in
    (paid, inv, found, answer)
