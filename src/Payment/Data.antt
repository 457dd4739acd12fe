-- ===== src/Payment/Data.antt =====
-- internal/payment/{charge,store,service}.go: the data of the payment
-- service. The database is a record of tables; Redis a list of keys that are set, and the broker a
-- list of events.
use swiftmind_parking_portal.Common.{String, Bool, List}
use swiftmind_parking_portal.Common.Int.{ℤ}
use swiftmind_parking_portal.Events.{PaymentCompleted}

abbrev pub scenario_success : String
scenario_success = "success"

abbrev pub scenario_failed : String
scenario_failed = "failed"

abbrev pub status_paid : String
status_paid = "paid"

abbrev pub status_failed : String
status_failed = "failed"

abbrev pub invoice_open : String
invoice_open = "open"

-- `Invoice`, as `Get` and `List` return it; "" stands for the NULL of an owner or an issuer.
pub record Invoice : Type 0 where
  pub id : String
  pub violation_id : String
  pub plate : String
  pub violation_type : String
  pub owner_email : String
  pub issued_by_email : String
  pub amount : ℤ
  pub status : String
  pub transaction_id : String

-- A row of the table `payments`.
pub record Payment : Type 0 where
  pub invoice_id : String
  pub amount : ℤ
  pub scenario : String
  pub status : String
  pub transaction_id : String

-- The tables, the invoices newest first with an empty `transaction_id`, the payments newest first;
-- the locks that are held in Redis; the events that were published, newest first.
pub record World : Type 0 where
  pub invoices : List Invoice
  pub payments : List Payment
  pub locks : List String
  pub events : List PaymentCompleted

pub data Redis : Type 0 where
  -- no client, a call that fails, and a call that works
  absent failing working : Redis

-- What a call of `Pay` meets: the state of Redis, the calls of the database that fail, whether there
-- is a broker that takes the event, and the identifier that `uuid.NewString` gives.
pub record Env : Type 0 where
  pub redis : Redis
  pub get_fails : Bool
  pub insert_fails : Bool
  pub mark_fails : Bool
  pub publishes : Bool
  pub uuid : String

pub record ChargeResult : Type 0 where
  pub status : String
  pub transaction_id : String

pub data Error : Type 0 where
  invalid_scenario not_found forbidden busy internal : Error

pub record PayResult : Type 0 where
  pub status : String
  pub transaction_id : String
  pub invoice : Invoice

pub data Answer : Type 0 where
  ok : PayResult → Answer
  err : Error → Answer

-- What `Pay` makes of the invoice that it has read.
pub data Checked : Type 0 where
  refuse : Error → Checked
  settled : PayResult → Checked
  proceed : Invoice → Checked
