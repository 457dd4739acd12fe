-- ===== src/Violation/Tests.antt =====
-- The violation service at concrete inputs. A time is a number of hours.
use mathlib.Core.Path.{subst}
use mathlib.Core.Option.{some-injective}
use swiftmind_parking_portal.Common.{
  if◌then◌else◌, ◌=t◌, ℕ, ◌-◌, ◌≡◌, ◌⊎◌, refl, true, false, none, some, [], ◌∷◌, arith, leb, ltb,
  Any,
}
use swiftmind_parking_portal.Common.Int.{pos, ◌≤ℤ◌}
use swiftmind_parking_portal.Domain.{valid_violation_type}
use swiftmind_parking_portal.Fine.{Breakdown, calculate, default_ruleset, time_for, repeat_for}
use swiftmind_parking_portal.Fine.Pricing.{IsInRange}
use swiftmind_parking_portal.Fine.Sample.{in_quarters, in_quarters_laws, default_ruleset-valid}
use swiftmind_parking_portal.Violation.{
  Photo, Library, CreateInput, ActiveRuleset, Violation, World, Env, Error, ok, err, is_valid_input,
  attach_photo_url, stored, mark_paid, count_prior_unpaid, fine_input, create, get, list_for,
}
use swiftmind_parking_portal.Violation.Issuing.{Keeps}
use swiftmind_parking_portal.Violation.Issued.{Issues, create-Issues, create-succeeds}
use swiftmind_parking_portal.Violation.Visibility.{get-Listed, IsKeyed}
use swiftmind_parking_portal.Violation.Pricing.{mark_paid_mono}

abbrev in_hours : Library in_quarters
in_hours = record {
  is_zero = λ t. leb t 0;
  before = ltb;
  sub_hours = λ n t. t - n;
  parse = λ layout s. none;
  stored_type = λ t. if t =t "" then "application/octet-stream" else t;
  ext = λ s. ".jpg";
}

abbrev active : ActiveRuleset in_quarters
active = record { id = "rules-1"; version = 1; rules = default_ruleset in_quarters }

abbrev works : Env in_quarters
works = record {
  active = some active;
  count_fails = false;
  put_fails = false;
  owner_fails = false;
  insert_fails = false;
  publishes = true;
  photo_uuid = "p-1";
  row_id = "v-2";
}

abbrev first : Violation in_quarters
first = record {
  id = "v-1";
  plate = "B1234ABC";
  violation_type = "expired_meter";
  location = "Jl. Sudirman";
  occurred_at = 2900;
  photo_object = "";
  photo_url = "";
  owner_email = "member@parkwatch.test";
  issued_by_email = "officer@parkwatch.test";
  rule_version_id = "rules-1";
  rule_version = 1;
  base_amount = pos 50000;
  time_multiplier = 4;
  repeat_multiplier = 4;
  prior_unpaid_count = pos 0;
  final_amount = pos 50000;
  payment_status = "unpaid";
}

abbrev one_unpaid : World in_quarters
one_unpaid = record {
  plates = ("B1234ABC", "member@parkwatch.test") ∷ [];
  violations = first ∷ [];
  photos = [];
  events = [];
}

abbrev again : CreateInput in_quarters
again = record {
  plate = "B1234ABC";
  violation_type = "blocking_hydrant";
  location = "Jl. Thamrin";
  occurred_at = 3023;
  issued_by_email = "officer@parkwatch.test";
}

abbrev snapshot : Photo
snapshot = record { content = "jpeg"; size = 4; content_type = "image/jpeg"; filename = "a.jpg" }

abbrev second : Violation in_quarters
second = record {
  id = "v-2";
  plate = "B1234ABC";
  violation_type = "blocking_hydrant";
  location = "Jl. Thamrin";
  occurred_at = 3023;
  photo_object = "violations/p-1.jpg";
  photo_url = "/api/violations/v-2/photo";
  owner_email = "member@parkwatch.test";
  issued_by_email = "officer@parkwatch.test";
  rule_version_id = "rules-1";
  rule_version = 1;
  base_amount = pos 250000;
  time_multiplier = 6;
  repeat_multiplier = 6;
  prior_unpaid_count = pos 1;
  final_amount = pos 562500;
  payment_status = "unpaid";
}

create-second : (create in_quarters in_hours works again (some snapshot) one_unpaid).0 ≡ ok second
unfolding create valid_violation_type calculate default_ruleset attach_photo_url time_for repeat_for
create-second = refl

create-Issues_example :
    (let r = create in_quarters in_hours works again (some snapshot) one_unpaid in
      ((e : Error) × (r.0 ≡ err e) × Keeps in_quarters one_unpaid r.1)
      ⊎ (is_valid_input in_quarters in_hours again ≡ true)
        × Issues in_quarters in_hours works again one_unpaid r)
create-Issues_example = create-Issues in_quarters in_hours works again (some snapshot) one_unpaid

create-succeeds_example :
    Issues in_quarters in_hours works again one_unpaid
      (create in_quarters in_hours works again (some snapshot) one_unpaid)
unfolding valid_violation_type
create-succeeds_example =
    create-succeeds in_quarters in_hours in_quarters_laws works again (some snapshot) active
      one_unpaid (record { counts = refl; puts = refl; finds_owner = refl; inserts = refl }) refl
      default_ruleset-valid refl

before-IsInRange :
    (b : Breakdown ℕ)
    → calculate in_quarters
        (default_ruleset in_quarters)
        (fine_input in_quarters in_hours again one_unpaid)
      ≡ some b
    → IsInRange in_quarters in_quarters_laws b
unfolding calculate default_ruleset time_for repeat_for count_prior_unpaid
before-IsInRange b h =
    subst (IsInRange in_quarters in_quarters_laws) (some-injective _ b h) (omega arith)

mark_paid_mono_example :
    (b b' : Breakdown ℕ) × (calculate in_quarters
        (default_ruleset in_quarters)
        (fine_input in_quarters in_hours again (mark_paid in_quarters "v-1" one_unpaid))
      ≡ some b)
    × (calculate in_quarters
          (default_ruleset in_quarters)
          (fine_input in_quarters in_hours again one_unpaid)
        ≡ some b')
    × (b.final_amount ≤ℤ b'.final_amount)
unfolding default_ruleset valid_violation_type
mark_paid_mono_example =
    mark_paid_mono in_quarters in_hours in_quarters_laws (default_ruleset in_quarters) "v-1" again
      one_unpaid default_ruleset-valid refl (omega arith) before-IsInRange

one_unpaid-IsKeyed : IsKeyed in_quarters one_unpaid
unfolding IsKeyed stored
one_unpaid-IsKeyed = (refl, tt)

get-first : get in_quarters "v-1" "member" "member@parkwatch.test" one_unpaid ≡ ok first
unfolding get attach_photo_url
get-first = refl

get-Listed_example :
    Any (λ x. x ≡ first) (list_for in_quarters "member" "member@parkwatch.test" one_unpaid)
get-Listed_example =
    get-Listed in_quarters "v-1" "member" "member@parkwatch.test" one_unpaid first get-first
