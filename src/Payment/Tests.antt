-- ===== src/Payment/Tests.antt =====
-- The payment service at concrete inputs.
use swiftmind_parking_portal.Common.{◌+◌, ◌≡◌, refl, true, false, some, [], ◌∷◌, arith}
use swiftmind_parking_portal.Common.Int.{pos}
use swiftmind_parking_portal.Payment.{
  Invoice, World, Env, working, create_invoice_from_event, get, err, ok, forbidden, PayResult,
  proceed, check, resolve, list_for, pay,
}
use swiftmind_parking_portal.Payment.Counts.{paid_count, IsConsistent}
use swiftmind_parking_portal.Payment.Once.{Reach, here, next, created, served, Reach-IsConsistent}
use swiftmind_parking_portal.Payment.Answers.{pay-err}
use swiftmind_parking_portal.Payment.Again.{IsPaid, pay-again}
use swiftmind_parking_portal.Payment.Race.{double_charge}
use swiftmind_parking_portal.Events.{ViolationCreated}

abbrev fine_invoice : Invoice
fine_invoice = record {
  id = "inv-1";
  violation_id = "v-1";
  plate = "B1234ABC";
  violation_type = "expired_meter";
  owner_email = "member@parkwatch.test";
  issued_by_email = "officer@parkwatch.test";
  amount = pos 50000;
  status = "open";
  transaction_id = "";
}

abbrev empty : World
empty = record { invoices = []; payments = []; locks = []; events = [] }

abbrev invoiced : World
invoiced = record empty { invoices = fine_invoice ∷ [] }

abbrev works : Env
works = record {
  redis = working;
  get_fails = false;
  insert_fails = false;
  mark_fails = false;
  publishes = true;
  uuid = "1";
}

abbrev success : PayResult
success = record {
  status = "paid";
  transaction_id = "txn_1";
  invoice = record fine_invoice { status = "paid" };
}

pay-success : (pay works "inv-1" "success" "member@parkwatch.test" invoiced).0 ≡ ok success
unfolding pay
pay-success = refl

pay-other : (pay works "inv-1" "success" "other@parkwatch.test" invoiced).0 ≡ err forbidden
unfolding pay
pay-other = refl

abbrev issued : ViolationCreated
issued = record {
  violation_id = "v-1";
  plate = "B1234ABC";
  violation_type = "expired_meter";
  owner_email = "member@parkwatch.test";
  issued_by_email = "officer@parkwatch.test";
  final_amount = pos 50000;
}

create_invoice_from_event-empty : create_invoice_from_event "inv-1" issued empty ≡ invoiced
unfolding create_invoice_from_event
create_invoice_from_event-empty = refl

check-invoiced : check "member@parkwatch.test" (get "inv-1" invoiced) ≡ proceed fine_invoice
unfolding check get
check-invoiced = refl

abbrev after : World
after =
    (pay works "inv-1" "success" "member@parkwatch.test"
      (pay works "inv-1" "failed" "member@parkwatch.test"
        (create_invoice_from_event "inv-1" issued empty)).1).1

after-Reach : Reach empty after
after-Reach =
    next
      (next (next here (created "inv-1" issued empty refl)) (
        served works "inv-1" "failed" "member@parkwatch.test"
          (create_invoice_from_event "inv-1" issued empty) refl))
      (served works "inv-1" "success" "member@parkwatch.test" _ refl)

Reach-IsConsistent_example : IsConsistent after
Reach-IsConsistent_example = Reach-IsConsistent tt after-Reach

pay-err_example : (pay works "inv-1" "success" "other@parkwatch.test" invoiced).1 ≡ invoiced
pay-err_example =
    pay-err works "inv-1" "success" "other@parkwatch.test" invoiced forbidden pay-other
      (ground arith)

pay-again_example :
    let w' = (pay works "inv-1" "success" "member@parkwatch.test" invoiced).1 in
    IsPaid "member@parkwatch.test" (get "inv-1" w')
    × (inv : Invoice) × (get "inv-1" w' ≡ some inv)
    × (pay works "inv-1" "failed" "member@parkwatch.test" w'
        ≡ (ok (record { status = "paid"; transaction_id = ""; invoice = inv }), w'))
pay-again_example =
    pay-again works works "inv-1" "failed" "member@parkwatch.test" invoiced success pay-success refl
      refl

double_charge_example :
    let checked = check "member@parkwatch.test" (get "inv-1" invoiced) in
    let w' = (resolve works "success" invoiced checked).1 in
    let w'' = (resolve (record works { uuid = "2" }) "success" w' checked).1 in
    paid_count "inv-1" w''.payments ≡ paid_count "inv-1" invoiced.payments + 2
double_charge_example =
    double_charge works (record works { uuid = "2" }) "inv-1" "member@parkwatch.test" fine_invoice
      invoiced (refl, refl, refl) (refl, refl, refl) refl check-invoiced

member_lists_own :
    list_for "member" "member@parkwatch.test" invoiced
    ≡ list_for "officer" "officer@parkwatch.test" invoiced
unfolding list_for
member_lists_own = refl
