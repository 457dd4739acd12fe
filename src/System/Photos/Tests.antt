-- ===== src/System/Photos/Tests.antt =====
-- The photo of a violation at concrete inputs.
use swiftmind_parking_portal.Common.{◌≡◌, refl, some, arith, eq_iff}
use swiftmind_parking_portal.Common.Int.{pos}
use swiftmind_parking_portal.Domain.{valid_violation_type}
use swiftmind_parking_portal.Fine.{default_ruleset, calculate, time_for, repeat_for}
use swiftmind_parking_portal.Fine.Sample.{in_quarters}
use swiftmind_parking_portal.Violation.{Photo, Violation, stored, photo, create}
use swiftmind_parking_portal.System.{System, Reach, here, next, issued}
use swiftmind_parking_portal.System.Sample.{lib, texts, works, input, empty}
use swiftmind_parking_portal.System.Photos.{Reach-photo}

abbrev snapshot : Photo
snapshot = record { content = "jpeg"; size = 4; content_type = "image/jpeg"; filename = "a.jpg" }

abbrev reported : System in_quarters
reported = record empty {
  violation = (create in_quarters lib works input (some snapshot) empty.violation).1;
}

reported-Reach : Reach in_quarters lib texts empty reported
unfolding stored
reported-Reach = next here (issued works input (some snapshot) empty refl)

abbrev row : Violation in_quarters
row = record {
  id = "v-1";
  plate = "B1234ABC";
  violation_type = "expired_meter";
  location = "Jl. Thamrin";
  occurred_at = 3009;
  photo_object = "violations/p-1.jpg";
  photo_url = "";
  owner_email = "member@parkwatch.test";
  issued_by_email = "officer@parkwatch.test";
  rule_version_id = "rules-1";
  rule_version = 1;
  base_amount = pos 50000;
  time_multiplier = 4;
  repeat_multiplier = 4;
  prior_unpaid_count = pos 0;
  final_amount = pos 50000;
  payment_status = "unpaid";
}

row-stored : stored in_quarters "v-1" reported.violation ≡ some row
unfolding stored create valid_violation_type calculate default_ruleset time_for repeat_for
row-stored = refl

Reach-photo_example : (p : Photo) × (photo in_quarters "v-1" reported.violation ≡ some p)
Reach-photo_example =
    Reach-photo in_quarters lib texts "v-1" row tt reported-Reach row-stored
      (ground (arith, eq_iff "violations/p-1.jpg" ""))
