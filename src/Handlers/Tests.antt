-- ===== src/Handlers/Tests.antt =====
-- The services behind the gateway at concrete requests.
use swiftmind_parking_portal.Common.{
  ◌-◌, String, ◌≡◌, refl, true, false, none, some, List, [], ◌∷◌, arith, eq_iff, ◌=t◌, ◌&&◌, leb,
  ltb, if◌then◌else◌,
}
use swiftmind_parking_portal.Common.Int.{pos}
use swiftmind_parking_portal.Domain.{valid_violation_type}
use swiftmind_parking_portal.Fine.{default_ruleset, calculate, time_for, repeat_for}
use swiftmind_parking_portal.Fine.Sample.{in_quarters}
use swiftmind_parking_portal.Gateway.{
  Claims, Request, Config, forwarded, violations, payments, token_from_request, dispatch,
}
use swiftmind_parking_portal.Violation
use swiftmind_parking_portal.Payment
use swiftmind_parking_portal.Payment.{working}
use swiftmind_parking_portal.Handlers.{json, pay, list_violations, Form, create_violation}
use swiftmind_parking_portal.Handlers.Callers.{
  pay-caller, IsListed, list_violations-caller, create_violation-caller,
}

abbrev member : Claims
member = record { user_id = "2"; email = "member@parkwatch.test"; name = "Mike"; role = "member" }

abbrev officer : Claims
officer = record {
  user_id = "1";
  email = "officer@parkwatch.test";
  name = "Olivia";
  role = "officer";
}

abbrev config : Config
config = record {
  cookie_name = "access_token";
  trim_prefix = λ p s. none;
  verify = λ t. if t =t "m" then some member else if t =t "o" then some officer else none;
}

abbrev request : (method token : String) (path : List String) → Request
request method token path = record {
  method = method;
  path = path;
  headers = [];
  cookies = ("access_token", token) ∷ [];
}

abbrev received : (method token : String) (path : List String) (c : Claims) → Request
received method token path c = record {
  method = method;
  path = path;
  headers =
      ("X-User-Name", c.name)
      ∷ ("X-User-Email", c.email)
      ∷ ("X-User-Role", c.role)
      ∷ ("X-User-Id", c.user_id)
      ∷ [];
  cookies = ("access_token", token) ∷ [];
}

abbrev pay_request : Request
pay_request = request "POST" "m" ("api" ∷ "invoices" ∷ "inv-1" ∷ "pay" ∷ [])

abbrev pay_received : Request
pay_received = received "POST" "m" ("inv-1" ∷ "pay" ∷ []) member

dispatch-pay : dispatch config pay_request ≡ forwarded payments pay_received
unfolding dispatch
dispatch-pay = refl

abbrev invoice : Payment.Invoice
invoice = record {
  id = "inv-1";
  violation_id = "v-1";
  plate = "B1234ABC";
  violation_type = "expired_meter";
  owner_email = "member@parkwatch.test";
  issued_by_email = "officer@parkwatch.test";
  amount = pos 50000;
  status = "open";
  transaction_id = "";
}

abbrev invoiced : Payment.World
invoiced = record { invoices = invoice ∷ []; payments = []; locks = []; events = [] }

abbrev works : Payment.Env
works = record {
  redis = working;
  get_fails = false;
  insert_fails = false;
  mark_fails = false;
  publishes = true;
  uuid = "1";
}

abbrev result : Payment.PayResult
result = record {
  status = "paid";
  transaction_id = "txn_1";
  invoice = record invoice { status = "paid" };
}

pay-success : (pay works "inv-1" (some "success") pay_received invoiced).0 ≡ json 200 result
unfolding pay Payment.pay
pay-success = refl

pay-caller_example :
    (c : Claims) × (config.verify (token_from_request config pay_request) ≡ some c)
    × (c.role ≡ "member")
    × (inv : Payment.Invoice) × (Payment.get "inv-1" invoiced ≡ some inv)
    × (inv.owner_email ≡ c.email)
pay-caller_example =
    pay-caller config pay_request pay_received works "inv-1" (some "success") invoiced result
      dispatch-pay refl pay-success

abbrev list_request : Request
list_request = request "GET" "m" ("api" ∷ "violations" ∷ [])

abbrev list_received : Request
list_received = received "GET" "m" [] member

dispatch-list : dispatch config list_request ≡ forwarded violations list_received
unfolding dispatch
dispatch-list = refl

token-list : config.verify (token_from_request config list_request) ≡ some member
unfolding token_from_request
token-list = refl

abbrev empty : Violation.World in_quarters
empty = record {
  plates = ("B1234ABC", "member@parkwatch.test") ∷ [];
  violations = [];
  photos = [];
  events = [];
}

abbrev lib : Violation.Library in_quarters
lib = record {
  is_zero = λ t. leb t 0;
  before = ltb;
  sub_hours = λ n t. t - n;
  parse = λ layout s.
      if layout =t "2006-01-02T15:04" && s =t "2024-05-05T09:00" then some 3009 else none;
  stored_type = λ t. if t =t "" then "application/octet-stream" else t;
  ext = λ s. ".jpg";
}

abbrev env : Violation.Env in_quarters
env = record {
  active = some (record { id = "rules-1"; version = 1; rules = default_ruleset in_quarters });
  count_fails = false;
  put_fails = false;
  owner_fails = false;
  insert_fails = false;
  publishes = true;
  photo_uuid = "p-1";
  row_id = "v-1";
}

abbrev form : Form in_quarters
form = record {
  plate = "B1234ABC";
  violation_type = "expired_meter";
  location = "Jl. Thamrin";
  occurred_at = "2024-05-05T09:00";
}

abbrev create_request : Request
create_request = request "POST" "o" ("api" ∷ "violations" ∷ [])

abbrev create_received : Request
create_received = received "POST" "o" [] officer

dispatch-create : dispatch config create_request ≡ forwarded violations create_received
unfolding dispatch
dispatch-create = refl

abbrev first : Violation.Violation in_quarters
first = record {
  id = "v-1";
  plate = "B1234ABC";
  violation_type = "expired_meter";
  location = "Jl. Thamrin";
  occurred_at = 3009;
  photo_object = "";
  photo_url = "";
  owner_email = "member@parkwatch.test";
  issued_by_email = "officer@parkwatch.test";
  rule_version_id = "rules-1";
  rule_version = 1;
  base_amount = pos 50000;
  time_multiplier = 4;
  repeat_multiplier = 4;
  prior_unpaid_count = pos 0;
  final_amount = pos 50000;
  payment_status = "unpaid";
}

created :
    (create_violation in_quarters lib env (some form) none create_received empty).0 ≡ json 201 first
unfolding create_violation Violation.create Violation.attach_photo_url valid_violation_type
    calculate default_ruleset time_for repeat_for
created = refl

create_violation-caller_example :
    (c : Claims) × (config.verify (token_from_request config create_request) ≡ some c)
    × (c.role ≡ "officer")
    × (first.issued_by_email ≡ c.email)
create_violation-caller_example =
    create_violation-caller in_quarters config create_request create_received lib env (some form)
      none empty first dispatch-create refl created

list_violations-caller_example :
    (vs : List (Violation.Violation in_quarters)) × (list_violations in_quarters list_received
        (record empty { violations = first ∷ [] })
      ≡ json 200 vs)
    × IsListed in_quarters member [] (record empty { violations = first ∷ [] }) vs
list_violations-caller_example =
    list_violations-caller in_quarters config list_request list_received member
      (record empty { violations = first ∷ [] }) dispatch-list token-list refl
      (ground (arith, eq_iff "member@parkwatch.test" ""))
