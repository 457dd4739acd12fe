-- ===== src/Payment/Accepted.antt =====
-- internal/payment/service.go, `Pay`: a request that nothing stands against.
use swiftmind_parking_portal.Common.{
  String, ◌≡◌, ◌≢◌, refl, ap, ◌∙◌, Bool-cases, true, false, some, arith, eq_iff, inl, inr, ◌=t◌,
  ◌+t◌, if◌then◌else◌,
}
use swiftmind_parking_portal.Payment.{
  Invoice, World, Env, get, acquire_lock, ok, proceed, PayResult, check, charge, charge_invoice,
  locked_charge, resolve, valid_scenario, pay,
}

-- The database and the broker work, and nobody holds the lock of the invoice.
pub record Works (env : Env) (id : String) (w : World) : Type 0 where
  pub got : env.get_fails ≡ false
  pub inserted : env.insert_fails ≡ false
  pub marked : env.mark_fails ≡ false
  pub locked : (w' : World) × (acquire_lock env.redis id w ≡ some w')

-- The status that a scenario leads to.
abbrev pub status_of : (scenario : String) → String
status_of scenario = if scenario =t "success" then "paid" else "failed"

charge_invoice-ok :
    (env : Env) (inv : Invoice) (scenario : String) (w : World)
    → env.insert_fails ≡ false
    → env.mark_fails ≡ false
    → (r : PayResult) × ((charge_invoice env inv scenario w).0 ≡ ok r)
      × (r.status ≡ status_of scenario)
unfolding charge_invoice charge
charge_invoice-ok env inv scenario w i m = elim (Bool-cases (scenario =t "success")) [
  | inl e ↦ (
    record {
      status = "paid";
      transaction_id = "txn_" +t env.uuid;
      invoice = record inv { status = "paid" };
    },
    rw (i, e, m, charge_invoice) refl,
    rw e refl,
  )
  | inr e ↦ (
    record { status = "failed"; transaction_id = "txn_" +t env.uuid; invoice = inv },
    rw (i, e, charge_invoice) refl,
    rw e refl,
  )
]

check-open :
    (caller : String) (inv : Invoice)
    → inv.owner_email ≡ caller
    → caller ≢ ""
    → inv.status ≢ "paid"
    → check caller (some inv) ≡ proceed inv
unfolding check
check-open caller inv o n s =
    ground (arith, eq_iff caller "", eq_iff inv.owner_email caller, eq_iff inv.status "paid")

resolve-accepted :
    (env : Env) (scenario : String) (w : World) (inv : Invoice)
    → env.insert_fails ≡ false
    → env.mark_fails ≡ false
    → ((w' : World) × (acquire_lock env.redis inv.id w ≡ some w'))
    → (r : PayResult) × ((resolve env scenario w (proceed inv)).0 ≡ ok r)
      × (r.status ≡ status_of scenario)
unfolding resolve locked_charge
resolve-accepted env scenario w inv i m (w', l) =
    let (r, a, b) = charge_invoice-ok env inv scenario w' i m in (r, rw (l, locked_charge) a, b)

pay-resolve :
    (env : Env) (id scenario caller : String) (w : World) (inv : Invoice)
    → get id w ≡ some inv
    → valid_scenario scenario ≡ true
    → env.get_fails ≡ false
    → check caller (some inv) ≡ proceed inv
    → pay env id scenario caller w ≡ resolve env scenario w (proceed inv)
unfolding pay
pay-resolve env id scenario caller w inv g v f c = rw (v, f, g, c, pay) refl

-- A caller's own open invoice can be paid with a scenario that exists.
pub pay-accepted :
    (env : Env) (id scenario caller : String) (w : World) (inv : Invoice)
    → get id w ≡ some inv
    → inv.id ≡ id
    → inv.owner_email ≡ caller
    → caller ≢ ""
    → inv.status ≢ "paid"
    → valid_scenario scenario ≡ true
    → Works env id w
    → (r : PayResult) × ((pay env id scenario caller w).0 ≡ ok r) × (r.status ≡ status_of scenario)
pay-accepted env id scenario caller w inv g same o n s v k =
    let same_lock : (w' : World) × (acquire_lock env.redis inv.id w ≡ some w') = rw same k.locked in
    let (r, a, b) = resolve-accepted env scenario w inv k.inserted k.marked same_lock in
    (
      r,
      ap (λ x. x.0)
            (pay-resolve env id scenario caller w inv g v k.got (check-open caller inv o n s))
          ∙ a,
      b,
    )
