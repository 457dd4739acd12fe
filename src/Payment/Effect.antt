-- ===== src/Payment/Effect.antt =====
-- internal/payment/service.go, `Pay`: all that a request can do to the invoices and to the events.
use swiftmind_parking_portal.Common.{
  String, ◌≡◌, refl, ◌∙◌, ◌⊎◌, inl, inr, Bool, true, false, Bool-cases, Option-cases, ◌=t◌, ◌+t◌,
  some, arith,
}
use swiftmind_parking_portal.Payment.{
  Invoice, World, Env, Redis, absent, failing, working, get, proceed, check, mark_paid,
  insert_payment, publish_completed, acquire_lock, release, charge_invoice, locked_charge, pay,
}
use swiftmind_parking_portal.Payment.Once.{pay-cases}

-- Neither the invoices nor the events change, or one invoice is marked paid and, if there is a broker,
-- its event is published.
abbrev pub IsEffect : Env → Invoice → World → World → Type 0
IsEffect env inv w w' =
    (w'.invoices ≡ w.invoices) × (w'.events ≡ w.events)
    ⊎ (txn : String) × (w'.invoices ≡ (mark_paid inv.id w).invoices)
      × (w'.events ≡ (publish_completed env.publishes inv txn w).events)

publish_completed-same :
    (publishes : Bool) (inv : Invoice) (txn : String) (v w : World)
    → v.events ≡ w.events
    → ((publish_completed publishes inv txn v).invoices ≡ v.invoices)
      × ((publish_completed publishes inv txn v).events
          ≡ (publish_completed publishes inv txn w).events)
unfolding publish_completed
publish_completed-same true inv txn v w h = (refl, rw h refl)
publish_completed-same false inv txn v w h = (refl, h)

charge_invoice-IsEffect :
    (env : Env) (inv : Invoice) (scenario : String) (w : World)
    → IsEffect env inv w (charge_invoice env inv scenario w).1
unfolding charge_invoice insert_payment mark_paid
charge_invoice-IsEffect env inv scenario w = elim (Bool-cases env.insert_fails) [
  | inl e ↦ inl (rw (e, charge_invoice) refl, rw (e, charge_invoice) refl)
  | inr e ↦ elim (Bool-cases (scenario =t "success")) [
    | inl s ↦ elim (Bool-cases env.mark_fails) [
      | inl m ↦ inl (rw (e, s, m, charge_invoice) refl, rw (e, s, m, charge_invoice) refl)
      | inr m ↦
          let txn = "txn_" +t env.uuid in
          inr (
            txn,
            rw (e, s, m, charge_invoice) (publish_completed-same env.publishes inv txn _ w refl).0,
            rw (e, s, m, charge_invoice) (publish_completed-same env.publishes inv txn _ w refl).1,
          )
    ]
    | inr s ↦ inl (rw (e, s, charge_invoice) refl, rw (e, s, charge_invoice) refl)
  ]
]

acquire_lock-same :
    (redis : Redis) (id : String) (w w' : World)
    → acquire_lock redis id w ≡ some w'
    → (w'.invoices ≡ w.invoices) × (w'.events ≡ w.events)
unfolding acquire_lock
acquire_lock-same absent id w w' h = ground arith
acquire_lock-same failing id w w' h = ground arith
acquire_lock-same working id w w' h = ground arith

release-same :
    (redis : Redis) (id : String) (w : World)
    → ((release redis id w).invoices ≡ w.invoices) × ((release redis id w).events ≡ w.events)
unfolding release
release-same absent id w = (refl, refl)
release-same failing id w = (refl, refl)
release-same working id w = (refl, refl)

-- The effect does not depend on the payments and on the locks.
IsEffect-same :
    (env : Env) (inv : Invoice) (v v' w w' : World)
    → (v.invoices ≡ w.invoices) × (v.events ≡ w.events)
    → (w'.invoices ≡ v'.invoices) × (w'.events ≡ v'.events)
    → IsEffect env inv v v'
    → IsEffect env inv w w'
unfolding mark_paid
IsEffect-same env inv v v' w w' (a, b) (c, d) (inl (i, e)) = inl (c ∙ i ∙ a, d ∙ e ∙ b)
IsEffect-same env inv v v' w w' (a, b) (c, d) (inr (txn, i, e)) =
    inr (txn, c ∙ i ∙ rw a refl, d ∙ e ∙ (publish_completed-same env.publishes inv txn v w b).1)

locked_charge-IsEffect :
    (env : Env) (inv : Invoice) (scenario : String) (w : World)
    → IsEffect env inv w (locked_charge env inv scenario w).1
unfolding locked_charge
locked_charge-IsEffect env inv scenario w = elim (Option-cases (acquire_lock env.redis inv.id w)) [
  | inl e ↦ inl (rw (e, locked_charge) refl, rw (e, locked_charge) refl)
  | inr (w', e) ↦
      rw (e, locked_charge)
        (IsEffect-same env inv w' (charge_invoice env inv scenario w').1 w
          (release env.redis inv.id (charge_invoice env inv scenario w').1)
          (acquire_lock-same env.redis inv.id w w' e)
          (release-same env.redis inv.id (charge_invoice env inv scenario w').1)
          (charge_invoice-IsEffect env inv scenario w'))
]

-- A request to pay leaves the invoices and the events as they were, or it marks the invoice that it
-- has found and checked, and publishes its event if there is a broker.
pub pay-IsEffect :
    (env : Env) (id scenario caller : String) (w : World)
    → (let w' = (pay env id scenario caller w).1 in
        (w'.invoices ≡ w.invoices) × (w'.events ≡ w.events)
        ⊎ (inv : Invoice) × (check caller (get id w) ≡ proceed inv) × IsEffect env inv w w')
pay-IsEffect env id scenario caller w = elim (pay-cases env id scenario caller w) [
  | inl e ↦ inl (rw e refl, rw e refl)
  | inr (inv, e, f) ↦ inr (inv, e, rw f (locked_charge-IsEffect env inv scenario w))
]
