-- ===== src/Events.antt =====
-- pkg/events/events.go: the events that the services exchange, without their times.
use swiftmind_parking_portal.Common.{String}
use swiftmind_parking_portal.Common.Int.{ℤ}

-- Sent when a violation is issued.
pub record ViolationCreated : Type 0 where
  pub violation_id : String
  pub plate : String
  pub violation_type : String
  pub owner_email : String
  pub issued_by_email : String
  pub final_amount : ℤ

-- Sent when an invoice is paid.
pub record PaymentCompleted : Type 0 where
  pub invoice_id : String
  pub violation_id : String
  pub plate : String
  pub owner_email : String
  pub issued_by_email : String
  pub amount : ℤ
  pub transaction_id : String
