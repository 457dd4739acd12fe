-- ===== src/Web/Page/Home/Tests.antt =====
-- The notification bell at concrete inputs.
use swiftmind_parking_portal.Common.{some}
use swiftmind_parking_portal.Web.Types.{Notification}

abbrev notice : Notification
notice = record {
  id = "n-1";
  kind = "violation.issued";
  message = "A fine was issued.";
  violation_id = some "v-1";
  created_at = "2025-01-01T08:00:00Z";
}
