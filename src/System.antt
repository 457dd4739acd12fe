-- ===== src/System.antt =====
-- cmd/{violation,payment,notification}/main.go: the services together, which share no state and talk
-- through the events of the broker. The broker delivers an event that was published to a consumer any
-- number of times and in any order, as RabbitMQ does with durable queues and redelivery.
pub mod Tables
pub mod Ledger
pub mod Links
pub mod Issued
pub mod Charged
pub mod News
pub mod Invariant
pub mod Register
pub mod Refinement
pub mod Delivery
pub mod Photos
pub mod Sample
mod Tests
use swiftmind_parking_portal.Common.{
  String, Bool, ◌≡◌, ◌≢◌, none, Option, List, All, Any, find?, ◌=t◌,
}
use swiftmind_parking_portal.Events.{ViolationCreated, PaymentCompleted}
use swiftmind_parking_portal.Fine.Platform.{Runtime}
use swiftmind_parking_portal.Violation
use swiftmind_parking_portal.Payment
use swiftmind_parking_portal.Notification

module _ (rt : Runtime) where
  -- The state of the services.
  pub record System : Type 0 where
    pub violation : Violation.World rt
    pub payment : Payment.World
    pub notifications : List Notification.Notification

  -- A member of the list.
  abbrev pub IsIn : {A : Type 0} → A → List A → Type 0
  IsIn x xs = Any (λ y. y ≡ x) xs

  -- The consumer `payment.violation-created`, with the identifier of a new invoice.
  unfoldable pub open_invoice : (id : String) → ViolationCreated → System → System
  open_invoice id evt s = record s { payment = Payment.create_invoice_from_event id evt s.payment }

  -- The consumer `violation.payment-completed`.
  unfoldable pub settle_violation : PaymentCompleted → System → System
  settle_violation evt s = record s {
    violation = Violation.mark_paid rt evt.violation_id s.violation;
  }

  module _ (lib : Violation.Library rt) (texts : Notification.Library) where
    -- One request or one delivery, served whole. The identifier that a table gives to a new row is
    -- none of its rows'.
    pub data Step : System → System → Type 0 where
      seeded :
          (plate owner : String) (s : System)
          → Step s (record s { violation = Violation.seed_plate rt plate owner s.violation })
      issued :
          (env : Violation.Env rt) (i : Violation.CreateInput rt) (photo : Option Violation.Photo)
          (s : System)
          → Violation.stored rt env.row_id s.violation ≡ none
          → Step s (record s { violation = (Violation.create rt lib env i photo s.violation).1 })
      invoiced :
          (id : String) (evt : ViolationCreated) (s : System)
          → IsIn evt s.violation.events
          → find? (λ i. i.id =t id) s.payment.invoices ≡ none
          → Step s (open_invoice id evt s)
      paid :
          (env : Payment.Env) (id scenario caller : String) (s : System)
          → Step s (record s { payment = (Payment.pay env id scenario caller s.payment).1 })
      settled :
          (evt : PaymentCompleted) (s : System)
          → IsIn evt s.payment.events
          → Step s (settle_violation evt s)
      told_created :
          (env : Notification.Env) (evt : ViolationCreated) (s : System)
          → IsIn evt s.violation.events
          → Step s (record s {
            notifications = (Notification.handle_violation_created texts env evt s.notifications).1;
          })
      told_completed :
          (env : Notification.Env) (evt : PaymentCompleted) (s : System)
          → IsIn evt s.payment.events
          → Step s (record s {
            notifications = (Notification.handle_payment_completed texts env evt s.notifications).1;
          })

    pub data Reach : System → System → Type 0 where
      here : {s : System} → Reach s s
      next : {s t u : System} → Reach s t → Step t u → Reach s u
