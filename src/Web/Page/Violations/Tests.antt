-- ===== src/Web/Page/Violations/Tests.antt =====
-- The list of violations at concrete inputs.
use swiftmind_parking_portal.Common.{none}
use swiftmind_parking_portal.Web.Sample.{sample_host}
use swiftmind_parking_portal.Web.Types.{User, Violation}

abbrev officer : User
officer = record {
  id = "1";
  email = "officer@parkwatch.test";
  name = "Olivia Officer";
  role = "officer";
}

abbrev issued : Violation sample_host.Num
issued = record {
  id = "v-1";
  plate = "B1234ABC";
  violation_type = "expired_meter";
  location = "Jl. Sudirman";
  occurred_at = "2025-01-01T08:00:00Z";
  photo_url = none;
  owner_email = "member@parkwatch.test";
  issued_by_email = "officer@parkwatch.test";
  rule_version = 1;
  base_amount = 50000;
  time_multiplier = 1;
  repeat_multiplier = 1;
  prior_unpaid_count = 0;
  final_amount = 50000;
  payment_status = "unpaid";
  created_at = "2025-01-01T08:00:00Z";
}
