-- ===== src/System/Sample.antt =====
-- The services together for the tests: a fine is issued, invoiced, paid and settled.
use swiftmind_parking_portal.Common.{
  ◌-◌, refl, inl, true, false, none, some, [], ◌∷◌, leb, ltb, ◌&&◌, ◌=t◌, if◌then◌else◌,
}
use swiftmind_parking_portal.Common.Int.{pos}
use swiftmind_parking_portal.Domain.{valid_violation_type}
use swiftmind_parking_portal.Events.{ViolationCreated, PaymentCompleted}
use swiftmind_parking_portal.Fine.{default_ruleset, calculate, time_for, repeat_for}
use swiftmind_parking_portal.Fine.Sample.{in_quarters}
use swiftmind_parking_portal.Violation
use swiftmind_parking_portal.Violation.{stored}
use swiftmind_parking_portal.Violation.Visibility.{IsKeyed}
use swiftmind_parking_portal.Payment
use swiftmind_parking_portal.Payment.{Invoice, working}
use swiftmind_parking_portal.Notification
use swiftmind_parking_portal.System.{
  System, Reach, here, next, issued, invoiced, paid, settled, open_invoice, settle_violation,
}
use swiftmind_parking_portal.System.Links.{Linked}

abbrev pub lib : Violation.Library in_quarters
lib = record {
  is_zero = λ t. leb t 0;
  before = ltb;
  sub_hours = λ n t. t - n;
  parse = λ layout s.
      if layout =t "2006-01-02T15:04" && s =t "2024-05-05T09:00" then some 3009 else none;
  stored_type = λ t. if t =t "" then "application/octet-stream" else t;
  ext = λ s. ".jpg";
}

abbrev pub texts : Notification.Library
texts = record { format_int = λ n. []; replace_all = λ s old new. s }

abbrev pub works : Violation.Env in_quarters
works = record {
  active = some (record { id = "rules-1"; version = 1; rules = default_ruleset in_quarters });
  count_fails = false;
  put_fails = false;
  owner_fails = false;
  insert_fails = false;
  publishes = true;
  photo_uuid = "p-1";
  row_id = "v-1";
}

abbrev pub input : Violation.CreateInput in_quarters
input = record {
  plate = "B1234ABC";
  violation_type = "expired_meter";
  location = "Jl. Thamrin";
  occurred_at = 3009;
  issued_by_email = "officer@parkwatch.test";
}

abbrev pub empty : System in_quarters
empty = record {
  violation = record {
    plates = ("B1234ABC", "member@parkwatch.test") ∷ [];
    violations = [];
    photos = [];
    events = [];
  };
  payment = record { invoices = []; payments = []; locks = []; events = [] };
  notifications = [];
}

pub empty-Linked : Linked in_quarters empty
unfolding IsKeyed
empty-Linked = record {
  keyed = tt;
  announced = tt;
  justified = tt;
  ledger = tt;
  billed = tt;
  completions = tt;
  news = tt;
}

abbrev pub fined : System in_quarters
fined = record empty {
  violation = (Violation.create in_quarters lib works input none empty.violation).1;
}

abbrev pub event : ViolationCreated
event = record {
  violation_id = "v-1";
  plate = "B1234ABC";
  violation_type = "expired_meter";
  owner_email = "member@parkwatch.test";
  issued_by_email = "officer@parkwatch.test";
  final_amount = pos 50000;
}

abbrev pub billed : System in_quarters
billed = open_invoice in_quarters "inv-1" event fined

abbrev pub pays : Payment.Env
pays = record {
  redis = working;
  get_fails = false;
  insert_fails = false;
  mark_fails = false;
  publishes = true;
  uuid = "1";
}

abbrev pub charged : System in_quarters
charged = record billed {
  payment = (Payment.pay pays "inv-1" "success" "member@parkwatch.test" billed.payment).1;
}

abbrev pub completed : PaymentCompleted
completed = record {
  invoice_id = "inv-1";
  violation_id = "v-1";
  plate = "B1234ABC";
  owner_email = "member@parkwatch.test";
  issued_by_email = "officer@parkwatch.test";
  amount = pos 50000;
  transaction_id = "txn_1";
}

abbrev pub done : System in_quarters
done = settle_violation in_quarters completed charged

pub fined-Reach : Reach in_quarters lib texts empty fined
unfolding stored
fined-Reach = next here (issued works input none empty refl)

pub billed-Reach : Reach in_quarters lib texts empty billed
unfolding Violation.create valid_violation_type calculate default_ruleset time_for repeat_for
billed-Reach = next fined-Reach (invoiced "inv-1" event fined (inl refl) refl)

pub charged-Reach : Reach in_quarters lib texts empty charged
charged-Reach = next billed-Reach (paid pays "inv-1" "success" "member@parkwatch.test" billed)

pub done-Reach : Reach in_quarters lib texts empty done
unfolding Payment.pay open_invoice Payment.create_invoice_from_event Payment.check Payment.get
done-Reach = next charged-Reach (settled completed charged (inl refl))
