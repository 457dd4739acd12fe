-- ===== src/Payment/Race.antt =====
-- internal/payment/service.go, `Pay`: two requests for one invoice at once. Each reads the invoice
-- and checks its status before it takes the lock.
use swiftmind_parking_portal.Common.{◌+◌, String, ◌≡◌, false, arith, eq_refl}
use swiftmind_parking_portal.Payment.{
  Invoice, World, Env, working, get, charge, mark_paid, insert_payment, publish_completed,
  acquire_lock, release, has_lock, proceed, check, charge_invoice, locked_charge, resolve,
}
use swiftmind_parking_portal.Payment.Counts.{paid_count}

-- A call of the database or of Redis fails in no step, and there is a Redis.
abbrev pub Works : Env → Type 0
Works env = (env.redis ≡ working) × (env.insert_fails ≡ false) × (env.mark_fails ≡ false)

locked_charge-paid :
    (env : Env) (inv : Invoice) (w : World)
    → Works env
    → has_lock inv.id w.locks ≡ false
    → (paid_count inv.id (locked_charge env inv "success" w).1.payments
        ≡ paid_count inv.id w.payments + 1)
      × ((locked_charge env inv "success" w).1.locks ≡ w.locks)
unfolding locked_charge acquire_lock release charge_invoice charge mark_paid insert_payment
    publish_completed
locked_charge-paid env inv w (r, i, m) l = ground (arith, eq_refl inv.id)

-- Two requests, each with a working Redis and database, that have both read an unpaid invoice before
-- either of them took the free lock both charge it: there are two more successful payments of it.
pub double_charge :
    (first second : Env) (id caller : String) (inv : Invoice) (w : World)
    → Works first
    → Works second
    → has_lock inv.id w.locks ≡ false
    → check caller (get id w) ≡ proceed inv
    → let w' = (resolve first "success" w (check caller (get id w))).1 in
      let w'' = (resolve second "success" w' (check caller (get id w))).1 in
      paid_count inv.id w''.payments ≡ paid_count inv.id w.payments + 2
unfolding resolve
double_charge first second id caller inv w f s l h =
    rw (h, resolve)
      (let (once, free) = locked_charge-paid first inv w f l in
        let (twice, _) =
          locked_charge-paid second inv (locked_charge first inv "success" w).1 s (rw free l) in
        ground arith)
