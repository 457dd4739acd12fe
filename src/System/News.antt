-- ===== src/System/News.antt =====
-- The services together: the notification service writes to nobody but the owner of the plate and the
-- officer.
use swiftmind_parking_portal.Common.{
  String, ◌≡◌, ap, ◌∙◌, inl, inr, Bool-cases, some, List, ◌=t◌, All, Any-gives, Any-All,
}
use swiftmind_parking_portal.Events.{ViolationCreated, PaymentCompleted}
use swiftmind_parking_portal.Fine.Platform.{Runtime}
use swiftmind_parking_portal.Violation
use swiftmind_parking_portal.Violation.{stored, created}
use swiftmind_parking_portal.Payment.{Invoice}
use swiftmind_parking_portal.Notification.{
  Notification, Library, Env, insert, notify_issuer, handle_violation_created,
  handle_payment_completed,
}
use swiftmind_parking_portal.System.{System, IsIn}
use swiftmind_parking_portal.System.Ledger.{completed, IsCompleted}
use swiftmind_parking_portal.System.Links.{IsAnnounced, IsBilled, IsOwnNews, Linked}
use swiftmind_parking_portal.System.Issued.{IsIn-All}

-- Any row for the recipient and the violation is one of the good ones.
abbrev Suits : (Notification → Type 0) → (recipient id : String) → Type 0
Suits P recipient id =
    (kind message : String)
    → P (record { recipient = recipient; kind = kind; message = message; violation_id = id })

module _ (texts : Library) (P : Notification → Type 0) where
  handle_violation_created-All :
      (env : Env) (evt : ViolationCreated) (ns : List Notification)
      → Suits P evt.owner_email evt.violation_id
      → All P ns
      → All P (handle_violation_created texts env evt ns).1
  unfolding handle_violation_created insert
  handle_violation_created-All env evt ns f h = elim (Bool-cases (evt.owner_email =t "")) [
    | inl e ↦ rw (e, handle_violation_created) h
    | inr e ↦ elim (Bool-cases env.owner_fails) [
      | inl k ↦ rw (e, k, handle_violation_created) h
      | inr k ↦ rw (e, k, handle_violation_created) (f _ _, h)
    ]
  ]

  notify_issuer-All :
      (env : Env) (evt : PaymentCompleted) (ns : List Notification)
      → Suits P evt.issued_by_email evt.violation_id
      → All P ns
      → All P (notify_issuer texts env evt ns).1
  unfolding notify_issuer insert
  notify_issuer-All env evt ns f h = elim (Bool-cases (evt.issued_by_email =t "")) [
    | inl e ↦ rw (e, notify_issuer) h
    | inr e ↦ elim (Bool-cases env.issuer_fails) [
      | inl k ↦ rw (e, k, notify_issuer) h
      | inr k ↦ rw (e, k, notify_issuer) (f _ _, h)
    ]
  ]

  handle_payment_completed-All :
      (env : Env) (evt : PaymentCompleted) (ns : List Notification)
      → Suits P evt.owner_email evt.violation_id
      → Suits P evt.issued_by_email evt.violation_id
      → All P ns
      → All P (handle_payment_completed texts env evt ns).1
  unfolding handle_payment_completed insert
  handle_payment_completed-All env evt ns f g h = elim (Bool-cases (evt.owner_email =t "")) [
    | inl e ↦ rw (e, handle_payment_completed) (notify_issuer-All env evt ns g h)
    | inr e ↦ elim (Bool-cases env.owner_fails) [
      | inl k ↦ rw (e, k, handle_payment_completed) h
      | inr k ↦ rw (e, k, handle_payment_completed) (notify_issuer-All env evt _ g (f _ _, h))
    ]
  ]

module _ (rt : Runtime) (texts : Library) where
  news-Linked :
      (s : System rt) (ns : List Notification)
      → Linked rt s
      → All (IsOwnNews rt s.violation) ns
      → Linked rt (record s { notifications = ns })
  news-Linked s ns l h = record {
    keyed = l.keyed;
    announced = l.announced;
    justified = l.justified;
    ledger = l.ledger;
    billed = l.billed;
    completions = l.completions;
    news = h;
  }

  pub told_created-Linked :
      (env : Env) (evt : ViolationCreated) (s : System rt)
      → IsIn rt evt s.violation.events
      → Linked rt s
      → Linked rt
          (record s { notifications = (handle_violation_created texts env evt s.notifications).1 })
  told_created-Linked env evt s h l =
      let (v, p, q) =
        IsIn-All rt (IsAnnounced rt s.violation) evt s.violation.events h l.announced in
      news-Linked s _ l (
        handle_violation_created-All texts (IsOwnNews rt s.violation) env evt s.notifications
          (λ kind message. (v, p, inl (ap (λ e. e.owner_email) q))) l.news)

  -- The violation of a completed payment.
  pub paid_violation :
      (evt : PaymentCompleted) (w : Violation.World rt) (invs : List Invoice)
      → All (IsBilled rt w) invs
      → IsCompleted invs evt
      → (v : Violation.Violation rt) × (stored rt evt.violation_id w ≡ some v)
        × (evt.owner_email ≡ v.owner_email)
        × (evt.issued_by_email ≡ v.issued_by_email)
        × (evt.amount ≡ v.final_amount)
  paid_violation evt w invs b c =
      Any-gives _ invs
        (λ i k.
          let (c, d) = k in
          let (v, p, q) = d in
          (
            v,
            ap (λ e. stored rt e.violation_id w) c.1 ∙ p,
            ap (λ e. e.owner_email) c.1 ∙ ap (λ j. j.owner_email) q,
            ap (λ e. e.issued_by_email) c.1 ∙ ap (λ j. j.issued_by_email) q,
            ap (λ e. e.amount) c.1 ∙ ap (λ j. j.amount) q,
          ))
        (Any-All (λ i. (i.status ≡ "paid") × (evt ≡ completed i evt.transaction_id)) (IsBilled rt w)
          invs c b)

  pub told_completed-Linked :
      (env : Env) (evt : PaymentCompleted) (s : System rt)
      → IsIn rt evt s.payment.events
      → Linked rt s
      → Linked rt
          (record s { notifications = (handle_payment_completed texts env evt s.notifications).1 })
  told_completed-Linked env evt s h l =
      let (v, p, owner, issuer, _) =
        paid_violation evt s.violation s.payment.invoices l.billed
          (IsIn-All rt (IsCompleted s.payment.invoices) evt s.payment.events h l.completions) in
      news-Linked s _ l (
        handle_payment_completed-All texts (IsOwnNews rt s.violation) env evt s.notifications
          (λ kind message. (v, p, inl owner)) (λ kind message. (v, p, inr issuer)) l.news)
