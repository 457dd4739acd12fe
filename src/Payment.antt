-- ===== src/Payment.antt =====
-- internal/payment/{charge,store,service}.go: invoices, and their payment through a mocked provider.
-- A call of the database that fails is chosen by `Env`.
mod Data
pub mod Counts
pub mod Once
pub mod Answers
pub mod Listing
pub mod Again
pub mod Race
pub mod Effect
pub mod Accepted
pub mod Receipted
mod Tests
pub use Data.*
use swiftmind_parking_portal.Common.{
  String, Bool, true, false, not, ◌&&◌, ◌||◌, Option, none, some, List, [], ◌∷◌, ◌++◌, map, find?,
  select, ◌=t◌, ◌+t◌, if◌then◌else◌,
}
use swiftmind_parking_portal.Common.Int.{ℤ}
use swiftmind_parking_portal.Domain.{role_member}
use swiftmind_parking_portal.Events.{ViolationCreated}

-- `Charge`.
unfoldable pub charge : (uuid scenario : String) → ChargeResult
charge uuid scenario =
    if scenario =t scenario_success
    then record { status = status_paid; transaction_id = "txn_" +t uuid }
    else record { status = status_failed; transaction_id = "txn_" +t uuid }

-- The payment is a successful one of the invoice.
abbrev pub is_paid_for : String → Payment → Bool
is_paid_for id p = p.invoice_id =t id && p.status =t status_paid

-- The lateral join of `invoiceSelect`.
abbrev pub join : List Payment → Invoice → Invoice
join payments inv = elim (find? (is_paid_for inv.id) payments) [
  | none ↦ inv
  | some p ↦ record inv { transaction_id = p.transaction_id }
]

-- `Store.Get`, where the query does not fail.
unfoldable pub get : String → World → Option Invoice
get id w = elim (find? (λ i. i.id =t id) w.invoices) [
  | none ↦ none
  | some inv ↦ some (join w.payments inv)
]

-- `Store.List`, where the query does not fail.
unfoldable pub list_invoices : String → World → List Invoice
list_invoices owner w =
    map (join w.payments)
      (if owner =t "" then w.invoices else select (λ i. i.owner_email =t owner) w.invoices)

-- `Service.List`.
unfoldable pub list_for : (role email : String) → World → List Invoice
unfolding list_invoices
list_for role email w = list_invoices (if role =t role_member then email else "") w

-- `Store.CreateInvoice`, with the identifier that the table gives.
unfoldable pub create_invoice : Invoice → World → World
create_invoice inv w = elim (find? (λ i. i.violation_id =t inv.violation_id) w.invoices) [
  | none ↦ record w {
    invoices = record inv { status = invoice_open; transaction_id = "" } ∷ w.invoices;
  }
  | some _ ↦ w
]

-- The invoice that `CreateInvoiceFromEvent` makes of an event, with the identifier of its row.
abbrev pub invoice_of : (id : String) → ViolationCreated → Invoice
invoice_of id evt = record {
  id = id;
  violation_id = evt.violation_id;
  plate = evt.plate;
  violation_type = evt.violation_type;
  owner_email = evt.owner_email;
  issued_by_email = evt.issued_by_email;
  amount = evt.final_amount;
  status = "";
  transaction_id = "";
}

-- `Service.CreateInvoiceFromEvent`.
unfoldable pub create_invoice_from_event : (id : String) → ViolationCreated → World → World
unfolding create_invoice
create_invoice_from_event id evt w = create_invoice (invoice_of id evt) w

-- `Store.MarkPaid`.
unfoldable pub mark_paid : String → World → World
mark_paid id w = record w {
  invoices = map (λ i. if i.id =t id then record i { status = status_paid } else i) w.invoices;
}

-- `Store.InsertPayment`.
unfoldable pub insert_payment : Payment → World → World
insert_payment p w = record w { payments = p ∷ w.payments }

-- `publishCompleted`.
unfoldable pub publish_completed : Bool → Invoice → String → World → World
publish_completed publishes inv txn w =
    if publishes
    then record w {
      events =
          record {
            invoice_id = inv.id;
            violation_id = inv.violation_id;
            plate = inv.plate;
            owner_email = inv.owner_email;
            issued_by_email = inv.issued_by_email;
            amount = inv.amount;
            transaction_id = txn;
          }
          ∷ w.events;
    }
    else w

abbrev pub has_lock : String → List String → Bool
has_lock id [] = false
has_lock id (k ∷ ks) = k =t id || has_lock id ks

abbrev pub drop_lock : String → List String → List String
drop_lock id [] = []
drop_lock id (k ∷ ks) = if k =t id then ks else k ∷ drop_lock id ks

-- `acquireLock`; `none` is a lock that somebody else holds.
unfoldable pub acquire_lock : Redis → String → World → Option World
acquire_lock absent id w = some w
acquire_lock failing id w = some w
acquire_lock working id w =
    if has_lock id w.locks then none else some (record w { locks = id ∷ w.locks })

-- The function that `acquireLock` returns.
unfoldable pub release : Redis → String → World → World
release absent id w = w
release failing id w = w
release working id w = record w { locks = drop_lock id w.locks }

-- `Pay` from after `Get` up to the lock.
unfoldable pub check : (caller : String) → Option Invoice → Checked
check caller none = refuse not_found
check caller (some inv) =
    if caller =t "" || not (inv.owner_email =t caller)
    then refuse forbidden
    else if inv.status =t status_paid
    then settled (record { status = status_paid; transaction_id = ""; invoice = inv })
    else proceed inv

-- The row that `Pay` inserts for the result of the charge.
abbrev pub payment_of : Invoice → String → ChargeResult → Payment
payment_of inv scenario result = record {
  invoice_id = inv.id;
  amount = inv.amount;
  scenario = scenario;
  status = result.status;
  transaction_id = result.transaction_id;
}

-- `Pay` while it holds the lock.
unfoldable pub charge_invoice : Env → Invoice → String → World → Answer × World
unfolding charge mark_paid insert_payment publish_completed
charge_invoice env inv scenario w =
    let result = charge env.uuid scenario in
    if env.insert_fails
    then (err internal, w)
    else let w' = insert_payment (payment_of inv scenario result) w in
      if result.status =t status_paid
      then if env.mark_fails then (err internal, w') else (
        ok (record {
          status = result.status;
          transaction_id = result.transaction_id;
          invoice = record inv { status = status_paid };
        }),
        publish_completed env.publishes inv result.transaction_id (mark_paid inv.id w'),
      )
      else (
        ok (record {
          status = result.status;
          transaction_id = result.transaction_id;
          invoice = inv;
        }),
        w',
      )

-- `Pay` from the lock on.
unfoldable pub locked_charge : Env → Invoice → String → World → Answer × World
unfolding charge_invoice acquire_lock release
locked_charge env inv scenario w = elim (acquire_lock env.redis inv.id w) [
  | none ↦ (err busy, w)
  | some w' ↦
      let (answer, w'') = charge_invoice env inv scenario w' in
      (answer, release env.redis inv.id w'')
]

abbrev pub valid_scenario : String → Bool
valid_scenario s = s =t scenario_success || s =t scenario_failed

-- `Pay` from the checks on.
unfoldable pub resolve : Env → String → World → Checked → Answer × World
unfolding locked_charge
resolve env scenario w (refuse e) = (err e, w)
resolve env scenario w (settled r) = (ok r, w)
resolve env scenario w (proceed inv) = locked_charge env inv scenario w

-- `Pay`, run with no other request in between.
unfoldable pub pay : Env → (id scenario caller : String) → World → Answer × World
unfolding resolve check get
pay env id scenario caller w =
    if not (valid_scenario scenario)
    then (err invalid_scenario, w)
    else if env.get_fails
    then (err internal, w)
    else resolve env scenario w (check caller (get id w))
