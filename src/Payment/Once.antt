-- ===== src/Payment/Once.antt =====
-- internal/payment/service.go, `Pay`: requests that are served one after another charge an invoice
-- at most once.
use swiftmind_parking_portal.Common.{
  String, ◌≡◌, ◌+t◌, refl, Bool, true, false, some, ◌⊎◌, inl, inr, arith, eq_iff, ◌=t◌, find?,
  Bool-cases, Option-cases,
}
use swiftmind_parking_portal.Payment.{
  Invoice, World, Env, Redis, absent, failing, working, get, mark_paid, insert_payment,
  publish_completed, acquire_lock, release, Checked, refuse, settled, proceed, check, payment_of,
  charge_invoice, locked_charge, create_invoice, create_invoice_from_event, invoice_of, pay,
  resolve, valid_scenario,
}
use swiftmind_parking_portal.Payment.Counts.{
  paid_count, IsConsistent, failed-IsConsistent, paid-IsConsistent, proceed-unpaid,
}
use swiftmind_parking_portal.Events.{ViolationCreated}

publish_completed-IsConsistent :
    (publishes : Bool) (inv : Invoice) (txn : String) (w : World)
    → IsConsistent w
    → IsConsistent (publish_completed publishes inv txn w)
unfolding publish_completed
publish_completed-IsConsistent true inv txn w c = c
publish_completed-IsConsistent false inv txn w c = c

-- The charge keeps the tables consistent, unless the update of the invoice fails.
charge_invoice-IsConsistent :
    (env : Env) (inv : Invoice) (scenario : String) (w : World)
    → env.mark_fails ≡ false
    → paid_count inv.id w.payments ≡ 0
    → IsConsistent w
    → IsConsistent (charge_invoice env inv scenario w).1
unfolding charge_invoice
charge_invoice-IsConsistent env inv scenario w m z c = elim (Bool-cases env.insert_fails) [
  | inl e ↦ rw e c
  | inr e ↦ elim (Bool-cases (scenario =t "success")) [
    | inl s ↦
        let p =
          payment_of inv scenario
            (record { status = "paid"; transaction_id = "txn_" +t env.uuid }) in
        rw (e, s, m, charge_invoice)
          (publish_completed-IsConsistent env.publishes inv ("txn_" +t env.uuid)
            (mark_paid inv.id (insert_payment p w))
            (paid-IsConsistent p w.payments w.invoices refl z c))
    | inr s ↦
        rw (e, s, charge_invoice)
          (failed-IsConsistent
            (payment_of inv scenario
              (record { status = "failed"; transaction_id = "txn_" +t env.uuid }))
            w.payments w.invoices (ground (arith, eq_iff "failed" "paid")) c)
  ]
]

-- A lock, held or not, is no part of what is consistent.
pub acquire_lock-tables :
    (redis : Redis) (id : String) (w w' : World)
    → acquire_lock redis id w ≡ some w'
    → (w'.payments ≡ w.payments) × (w'.invoices ≡ w.invoices)
unfolding acquire_lock
acquire_lock-tables absent id w w' h = ground arith
acquire_lock-tables failing id w w' h = ground arith
acquire_lock-tables working id w w' h = ground arith

release-IsConsistent :
    (redis : Redis) (id : String) (w : World) → IsConsistent w → IsConsistent (release redis id w)
unfolding release
release-IsConsistent absent id w c = c
release-IsConsistent failing id w c = c
release-IsConsistent working id w c = c

locked_charge-IsConsistent :
    (env : Env) (inv : Invoice) (scenario : String) (w : World)
    → env.mark_fails ≡ false
    → paid_count inv.id w.payments ≡ 0
    → IsConsistent w
    → IsConsistent (locked_charge env inv scenario w).1
unfolding locked_charge
locked_charge-IsConsistent env inv scenario w m z c =
    elim (Option-cases (acquire_lock env.redis inv.id w)) [
      | inl e ↦ rw (e, locked_charge) c
      | inr (w', e) ↦
          let (same_payments, same_invoices) = acquire_lock-tables env.redis inv.id w w' e in
          let c' : IsConsistent w' = rw (same_payments, same_invoices) c in
          let z' : paid_count inv.id w'.payments ≡ 0 = rw same_payments z in
          rw (e, locked_charge)
            (release-IsConsistent env.redis inv.id (charge_invoice env inv scenario w').1
              (charge_invoice-IsConsistent env inv scenario w' m z' c'))
    ]

-- `Pay` leaves everything as it was, or charges the invoice that it has read and checked.
resolve-cases :
    (env : Env) (scenario : String) (w : World) (k : Checked)
    → ((resolve env scenario w k).1 ≡ w)
      ⊎ (inv : Invoice) × (k ≡ proceed inv)
        × (resolve env scenario w k ≡ locked_charge env inv scenario w)
unfolding resolve
resolve-cases env scenario w (refuse e) = inl refl
resolve-cases env scenario w (settled r) = inl refl
resolve-cases env scenario w (proceed inv) = inr (inv, refl, refl)

pub pay-cases :
    (env : Env) (id scenario caller : String) (w : World)
    → ((pay env id scenario caller w).1 ≡ w)
      ⊎ (inv : Invoice) × (check caller (get id w) ≡ proceed inv)
        × (pay env id scenario caller w ≡ locked_charge env inv scenario w)
unfolding pay
pay-cases env id scenario caller w = elim (Bool-cases (valid_scenario scenario)) [
  | inl v ↦ elim (Bool-cases env.get_fails) [
    | inl g ↦ inl (rw (v, g, pay) refl)
    | inr g ↦ rw (v, g, pay) (resolve-cases env scenario w (check caller (get id w)))
  ]
  | inr v ↦ inl (rw (v, pay) refl)
]

pub pay-IsConsistent :
    (env : Env) (id scenario caller : String) (w : World)
    → env.mark_fails ≡ false
    → IsConsistent w
    → IsConsistent (pay env id scenario caller w).1
pay-IsConsistent env id scenario caller w m c = elim (pay-cases env id scenario caller w) [
  | inl e ↦ rw e c
  | inr (inv, e, f) ↦
      rw f (locked_charge-IsConsistent env inv scenario w m (proceed-unpaid id caller w inv c e) c)
]

create_invoice-IsConsistent :
    (inv : Invoice) (w : World)
    → paid_count inv.id w.payments ≡ 0
    → IsConsistent w
    → IsConsistent (create_invoice inv w)
unfolding create_invoice
create_invoice-IsConsistent inv w z c =
    elim (Option-cases (find? (λ i. i.violation_id =t inv.violation_id) w.invoices)) [
      | inl e ↦ rw (e, create_invoice) (z, c)
      | inr (row, e) ↦ rw (e, create_invoice) c
    ]

-- What the service does to its tables, one whole request or event after another. The identifier of a
-- new invoice is fresh, and an update of an invoice does not fail.
pub data Step : World → World → Type 0 where
  created :
      (id : String) (evt : ViolationCreated) (w : World)
      → paid_count id w.payments ≡ 0
      → Step w (create_invoice_from_event id evt w)
  served :
      (env : Env) (id scenario caller : String) (w : World)
      → env.mark_fails ≡ false
      → Step w (pay env id scenario caller w).1

pub data Reach : World → World → Type 0 where
  here : {w : World} → Reach w w
  next : {u v w : World} → Reach u v → Step v w → Reach u w

Step-IsConsistent : {v w : World} → Step v w → IsConsistent v → IsConsistent w
unfolding create_invoice_from_event
Step-IsConsistent (created id evt w z) c = create_invoice-IsConsistent (invoice_of id evt) w z c
Step-IsConsistent (served env id scenario caller w m) c =
    pay-IsConsistent env id scenario caller w m c

-- From consistent tables, such as empty ones, any sequence of new invoices and of payments that are
-- served one after another, by whom and in whatever state of Redis and of the broker, reaches tables
-- where a paid invoice has exactly one successful payment and any other has none, provided that no
-- update of an invoice fails.
pub Reach-IsConsistent : {v w : World} → IsConsistent v → Reach v w → IsConsistent w
Reach-IsConsistent c here = c
Reach-IsConsistent c (next r s) = Step-IsConsistent s (Reach-IsConsistent c r)
