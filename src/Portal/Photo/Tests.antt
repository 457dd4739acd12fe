-- ===== src/Portal/Photo/Tests.antt =====
-- The photo of a report, all the way, at concrete inputs.
use swiftmind_parking_portal.Common.{
  ◌≡◌, refl, none, some, [], ◌∷◌, arith, eq_iff, ◌=t◌, if◌then◌else◌,
}
use swiftmind_parking_portal.Common.Int.{pos}
use swiftmind_parking_portal.Domain.{valid_violation_type}
use swiftmind_parking_portal.Fine.{default_ruleset, calculate, time_for, repeat_for}
use swiftmind_parking_portal.Fine.Sample.{in_quarters}
use swiftmind_parking_portal.Gateway.{Claims, Config, Request, dispatch}
use swiftmind_parking_portal.Violation
use swiftmind_parking_portal.System.Sample.{lib, works, empty}
use swiftmind_parking_portal.Handlers.{
  json, failure, photo_failure, Form, parse_timestamp, create_violation,
}
use swiftmind_parking_portal.Portal.Photo.{photo_call, Shows, create-Shows}

abbrev member : Claims
member = record { user_id = "2"; email = "member@parkwatch.test"; name = "Mike"; role = "member" }

abbrev config : Config
config = record {
  cookie_name = "access_token";
  trim_prefix = λ p s. none;
  verify = λ t. if t =t "m" then some member else none;
}

abbrev form : Form in_quarters
form = record {
  plate = "B1234ABC";
  violation_type = "expired_meter";
  location = "Jl. Thamrin";
  occurred_at = "2024-05-05T09:00";
}

abbrev received : Request
received = record {
  method = "POST";
  path = [];
  headers = ("X-User-Role", "officer") ∷ ("X-User-Email", "officer@parkwatch.test") ∷ [];
  cookies = [];
}

abbrev snapshot : Violation.Photo
snapshot = record { content = "jpeg"; size = 4; content_type = "image/jpeg"; filename = "a.jpg" }

abbrev answered : Violation.Violation in_quarters
answered = record {
  id = "v-1";
  plate = "B1234ABC";
  violation_type = "expired_meter";
  location = "Jl. Thamrin";
  occurred_at = 3009;
  photo_object = "violations/p-1.jpg";
  photo_url = "/api/violations/v-1/photo";
  owner_email = "member@parkwatch.test";
  issued_by_email = "officer@parkwatch.test";
  rule_version_id = "rules-1";
  rule_version = 1;
  base_amount = pos 50000;
  time_multiplier = 4;
  repeat_multiplier = 4;
  prior_unpaid_count = pos 0;
  final_amount = pos 50000;
  payment_status = "unpaid";
}

parse_timestamp_local : parse_timestamp in_quarters lib "2024-05-05T09:00" ≡ some 3009
unfolding parse_timestamp
parse_timestamp_local = refl

parse_timestamp_empty : parse_timestamp in_quarters lib "" ≡ none
unfolding parse_timestamp
parse_timestamp_empty = refl

create_unread :
    (create_violation in_quarters lib works
      (some (record form { occurred_at = "noon" }))
      none
      received
      empty.violation).0
    ≡ failure 400 "invalid occurred_at timestamp"
unfolding create_violation
create_unread = refl

created :
    (create_violation in_quarters lib works (some form) (some snapshot) received empty.violation).0
    ≡ json 201 answered
unfolding create_violation Violation.create Violation.attach_photo_url valid_violation_type
    calculate default_ruleset time_for repeat_for
created = refl

photo_unsigned :
    photo_call in_quarters config "x" "/api/violations/v-1/photo" empty.violation
    ≡ some (photo_failure 401 "invalid or expired token")
unfolding photo_call dispatch
photo_unsigned = refl

create-Shows_example :
    Shows in_quarters config "m"
      (some snapshot)
      answered
      (create_violation in_quarters lib works
        (some form)
        (some snapshot)
        received
        empty.violation).1
create-Shows_example =
    create-Shows in_quarters lib works config "m" member (some form) (some snapshot) received
      empty.violation answered refl refl (ground (arith, eq_iff "v-1" "")) refl created
