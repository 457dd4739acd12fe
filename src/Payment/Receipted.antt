-- ===== src/Payment/Receipted.antt =====
-- internal/payment/{service,store}.go: the transaction of a payment, as a later `Get` or `List` gives it.
use mathlib.Core.Path.{subst}
use swiftmind_parking_portal.Common.{
  String, ◌≡◌, ◌≢◌, refl, Bool-cases, true, Option, some, none, List, ◌∷◌, find?, find?-test, ◌=t◌,
  ◌+t◌, eq_iff, arith, inl, inr,
}
use swiftmind_parking_portal.Payment.{
  Invoice, Payment, World, Env, get, join, is_paid_for, charge, mark_paid, insert_payment,
  publish_completed, acquire_lock, release, ok, Checked, refuse, settled, proceed, PayResult, check,
  charge_invoice, locked_charge, resolve, pay,
}
use swiftmind_parking_portal.Payment.Again.{proceed-IsOwned}

-- The newest payment is a successful one of the invoice, with the transaction.
abbrev pub IsNewest : (id txn : String) → World → Type 0
IsNewest id txn w =
    (p : Payment) × (rest : List Payment) × (w.payments ≡ p ∷ rest)
    × (p.invoice_id ≡ id)
    × (p.status ≡ "paid")
    × (p.transaction_id ≡ txn)

locked_charge-IsNewest :
    (env : Env) (inv : Invoice) (w : World) (r : PayResult)
    → (locked_charge env inv "success" w).0 ≡ ok r
    → IsNewest inv.id r.transaction_id (locked_charge env inv "success" w).1
unfolding locked_charge acquire_lock release charge_invoice charge mark_paid insert_payment
    publish_completed
locked_charge-IsNewest env inv w r h = (
  record {
    invoice_id = inv.id;
    amount = inv.amount;
    scenario = "success";
    status = "paid";
    transaction_id = "txn_" +t env.uuid;
  },
  w.payments,
  ground arith,
  refl,
  refl,
  ground arith,
)

check-settled_txn :
    (caller : String) (found : Option Invoice) (r : PayResult)
    → check caller found ≡ settled r
    → r.transaction_id ≡ ""
unfolding check
check-settled_txn caller none r h = ground arith
check-settled_txn caller (some inv) r h = ground arith

resolve-IsNewest :
    (env : Env) (id caller : String) (w : World) (k : Checked) (r : PayResult)
    → check caller (get id w) ≡ k
    → (resolve env "success" w k).0 ≡ ok r
    → r.transaction_id ≢ ""
    → IsNewest id r.transaction_id (resolve env "success" w k).1
unfolding resolve
resolve-IsNewest env id caller w (refuse e) r h k n = ground arith
resolve-IsNewest env id caller w (settled x) r h k n =
    absurd (n (ground (arith, check-settled_txn caller (get id w) x h)))
resolve-IsNewest env id caller w (proceed inv) r h k n =
    subst (λ i. IsNewest i r.transaction_id (locked_charge env inv "success" w).1)
      (proceed-IsOwned id caller w inv h).0 (locked_charge-IsNewest env inv w r k)

pub pay-IsNewest :
    (env : Env) (id caller : String) (w : World) (r : PayResult)
    → (pay env id "success" caller w).0 ≡ ok r
    → r.transaction_id ≢ ""
    → IsNewest id r.transaction_id (pay env id "success" caller w).1
unfolding pay
pay-IsNewest env id caller w r h n = elim (Bool-cases env.get_fails) [
  | inl g ↦ ground arith
  | inr g ↦ rw (g, pay) (resolve-IsNewest env id caller w _ r refl (rw (g, pay) at h) n)
]

-- The row that an identifier finds is shown with the transaction of the newest payment.
pub IsNewest-join :
    (id txn : String) (w : World) (row : Invoice)
    → IsNewest id txn w
    → find? (λ i. i.id =t id) w.invoices ≡ some row
    → (join w.payments row).transaction_id ≡ txn
IsNewest-join id txn w row (p, rest, newest, same, paid, shown) found =
    let row_id : row.id ≡ id =
      (eq_iff row.id id).0 (find?-test (λ i. i.id =t id) w.invoices row found) in
    let test : is_paid_for row.id p ≡ true =
      ground (arith, eq_iff p.invoice_id row.id, eq_iff p.status "paid") in
    rw newest (rw (test, find?, join) shown)
