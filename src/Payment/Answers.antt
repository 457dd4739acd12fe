-- ===== src/Payment/Answers.antt =====
-- internal/payment/service.go, `Pay`: what a caller learns from its answer.
use swiftmind_parking_portal.Common.{
  String, ◌≡◌, ◌≢◌, refl, Bool-cases, Option-cases, true, ◌=t◌, ◌||◌, not, Option, some, none,
  arith, eq_iff, inl, inr,
}
use swiftmind_parking_portal.Payment.{
  Invoice, World, Env, get, acquire_lock, ok, err, Error, internal, forbidden, Checked, refuse,
  settled, proceed, PayResult, check, charge_invoice, locked_charge, resolve, valid_scenario, pay,
}

-- The caller may pay what it found.
abbrev pub IsPayable : (scenario caller : String) → Option Invoice → Type 0
IsPayable scenario caller none = ⊥
IsPayable scenario caller (some inv) =
    (valid_scenario scenario ≡ true) × (inv.owner_email ≡ caller) × (caller ≢ "")

check-IsPayable :
    (scenario caller : String) (found : Option Invoice)
    → valid_scenario scenario ≡ true
    → ((e : Error) → check caller found ≢ refuse e)
    → IsPayable scenario caller found
unfolding check
check-IsPayable scenario caller none v h = absurd (h _ refl)
check-IsPayable scenario caller (some inv) v h =
    elim (Bool-cases (caller =t "" || not (inv.owner_email =t caller))) [
      | inl e ↦ absurd (h forbidden (rw (e, check) refl))
      | inr e ↦ (v, ground (arith, eq_iff inv.owner_email caller), ground (arith, eq_iff caller ""))
    ]

resolve-refuse :
    (env : Env) (scenario : String) (w : World) (k : Checked) (r : PayResult)
    → (resolve env scenario w k).0 ≡ ok r
    → (e : Error) → k ≢ refuse e
unfolding resolve
resolve-refuse env scenario w (refuse e) r h = ground arith
resolve-refuse env scenario w (settled x) r h = ground arith
resolve-refuse env scenario w (proceed x) r h = ground arith

-- Only the owner of an invoice, with a scenario that exists, gets an answer without an error.
pub pay-ok :
    (env : Env) (id scenario caller : String) (w : World) (r : PayResult)
    → (pay env id scenario caller w).0 ≡ ok r
    → IsPayable scenario caller (get id w)
unfolding pay
pay-ok env id scenario caller w r h = elim (Bool-cases (valid_scenario scenario)) [
  | inl v ↦ elim (Bool-cases env.get_fails) [
    | inl g ↦ ground arith
    | inr g ↦
        check-IsPayable scenario caller (get id w) v
          (resolve-refuse env scenario w _ r (rw (v, g, pay) at h))
  ]
  | inr v ↦ ground arith
]

charge_invoice-err :
    (env : Env) (inv : Invoice) (scenario : String) (w : World) (e : Error)
    → (charge_invoice env inv scenario w).0 ≡ err e
    → e ≡ internal
unfolding charge_invoice
charge_invoice-err env inv scenario w e h = ground arith

locked_charge-err :
    (env : Env) (inv : Invoice) (scenario : String) (w : World) (e : Error)
    → (locked_charge env inv scenario w).0 ≡ err e
    → e ≢ internal
    → (locked_charge env inv scenario w).1 ≡ w
unfolding locked_charge
locked_charge-err env inv scenario w e h n = elim (Option-cases (acquire_lock env.redis inv.id w)) [
  | inl a ↦ rw (a, locked_charge) refl
  | inr (w', a) ↦ absurd (n (charge_invoice-err env inv scenario w' e (rw (a, locked_charge) at h)))
]

resolve-err :
    (env : Env) (scenario : String) (w : World) (k : Checked) (e : Error)
    → (resolve env scenario w k).0 ≡ err e
    → e ≢ internal
    → (resolve env scenario w k).1 ≡ w
unfolding resolve
resolve-err env scenario w (refuse x) e h n = refl
resolve-err env scenario w (settled x) e h n = refl
resolve-err env scenario w (proceed inv) e h n = locked_charge-err env inv scenario w e h n

-- An answer with an error other than an internal one leaves the tables, the locks and the events as
-- they were.
pub pay-err :
    (env : Env) (id scenario caller : String) (w : World) (e : Error)
    → (pay env id scenario caller w).0 ≡ err e
    → e ≢ internal
    → (pay env id scenario caller w).1 ≡ w
unfolding pay
pay-err env id scenario caller w e h n = elim (Bool-cases (valid_scenario scenario)) [
  | inl v ↦ elim (Bool-cases env.get_fails) [
    | inl g ↦ rw (v, g, pay) refl
    | inr g ↦
        rw (v, g, pay)
          (resolve-err env scenario w (check caller (get id w)) e (rw (v, g, pay) at h) n)
  ]
  | inr v ↦ rw (v, pay) refl
]
