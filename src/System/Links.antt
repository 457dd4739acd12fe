-- ===== src/System/Links.antt =====
-- What the tables of the services have to do with each other, although the services share none.
use swiftmind_parking_portal.Common.{◌≡◌, ◌⊎◌, some, List, All, Any, IsKeyedBy}
use swiftmind_parking_portal.Events.{ViolationCreated}
use swiftmind_parking_portal.Fine.Platform.{Runtime}
use swiftmind_parking_portal.Violation
use swiftmind_parking_portal.Violation.{stored, created}
use swiftmind_parking_portal.Violation.Visibility.{IsKeyed}
use swiftmind_parking_portal.Payment.{Invoice, invoice_of}
use swiftmind_parking_portal.Notification
use swiftmind_parking_portal.System.{System}
use swiftmind_parking_portal.System.Tables.{Extends, Extends-carries}
use swiftmind_parking_portal.System.Ledger.{IsCompleted, IsPaidFor}

module _ (rt : Runtime) where
  -- The event is that of the violation with its identifier.
  abbrev pub IsAnnounced : Violation.World rt → ViolationCreated → Type 0
  IsAnnounced w e =
      (v : Violation.Violation rt) × (stored rt e.violation_id w ≡ some v) × (e ≡ created rt v)

  -- The invoice is that of the violation with its identifier, for the final amount and the owner.
  abbrev pub IsBilled : Violation.World rt → Invoice → Type 0
  IsBilled w i =
      (v : Violation.Violation rt) × (stored rt i.violation_id w ≡ some v)
      × (i ≡ record (invoice_of i.id (created rt v)) { status = i.status })

  -- The violation is unpaid, or there is a paid invoice of it.
  abbrev pub IsJustified : List Invoice → Violation.Violation rt → Type 0
  IsJustified invs v = (v.payment_status ≡ "unpaid") ⊎ Any (IsPaidFor v.id) invs

  -- The notification is of a violation, to the owner of the plate or to the officer.
  abbrev pub IsOwnNews : Violation.World rt → Notification.Notification → Type 0
  IsOwnNews w n =
      (v : Violation.Violation rt) × (stored rt n.violation_id w ≡ some v)
      × ((n.recipient ≡ v.owner_email) ⊎ (n.recipient ≡ v.issued_by_email))

  pub record Linked (s : System rt) : Type 0 where
    pub keyed : IsKeyed rt s.violation
    pub announced : All (IsAnnounced s.violation) s.violation.events
    pub justified : All (IsJustified s.payment.invoices) s.violation.violations
    pub ledger : IsKeyedBy (λ i. i.id) s.payment.invoices
    pub billed : All (IsBilled s.violation) s.payment.invoices
    pub completions : All (IsCompleted s.payment.invoices) s.payment.events
    pub news : All (IsOwnNews s.violation) s.notifications

  pub IsAnnounced-Extends :
      (w w' : Violation.World rt) (e : ViolationCreated)
      → Extends rt w w'
      → IsAnnounced w e
      → IsAnnounced w' e
  IsAnnounced-Extends w w' e h (v, p, q) =
      Extends-carries rt w w' e.violation_id v (λ u. e ≡ created rt u) h p q q

  pub IsBilled-Extends :
      (w w' : Violation.World rt) (i : Invoice) → Extends rt w w' → IsBilled w i → IsBilled w' i
  IsBilled-Extends w w' i h (v, p, q) =
      Extends-carries rt w w' i.violation_id v
        (λ u. i ≡ record (invoice_of i.id (created rt u)) { status = i.status }) h p q q

  pub IsOwnNews-Extends :
      (w w' : Violation.World rt) (n : Notification.Notification)
      → Extends rt w w'
      → IsOwnNews w n
      → IsOwnNews w' n
  IsOwnNews-Extends w w' n h (v, p, q) =
      Extends-carries rt w w' n.violation_id v
        (λ u. (n.recipient ≡ u.owner_email) ⊎ (n.recipient ≡ u.issued_by_email)) h p q q
