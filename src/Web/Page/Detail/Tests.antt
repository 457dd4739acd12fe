-- ===== src/Web/Page/Detail/Tests.antt =====
-- The page of a violation at concrete inputs.
use swiftmind_parking_portal.Common.{none}
use swiftmind_parking_portal.Web.Sample.{sample_host}
use swiftmind_parking_portal.Web.Types.{User, Violation}

abbrev member : User
member = record { id = "2"; email = "member@parkwatch.test"; name = "Mike Member"; role = "member" }

abbrev issued : Violation sample_host.Num
issued = record {
  id = "v-1";
  plate = "B1234ABC";
  violation_type = "expired_meter";
  location = "Jl. Sudirman";
  occurred_at = "2025-01-01T08:00:00Z";
  photo_url = none;
  owner_email = "member@parkwatch.test";
  issued_by_email = "officer@parkwatch.test";
  rule_version = 1;
  base_amount = 50000;
  time_multiplier = 1;
  repeat_multiplier = 2;
  prior_unpaid_count = 3;
  final_amount = 100000;
  payment_status = "unpaid";
  created_at = "2025-01-01T08:00:00Z";
}
