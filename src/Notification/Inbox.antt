-- ===== src/Notification/Inbox.antt =====
-- internal/notification/service.go, the handlers: what an event adds to each user's list.
use swiftmind_parking_portal.Common.{
  ℕ, zero, suc, String, ◌≡◌, refl, ap, sym, ◌∙◌, ◌≢◌, ◌⊎◌, Any, =t_refl, false, Bool-cases, List,
  [], ◌∷◌, inl, inr, select, take, arith, eq_iff, ◌=t◌, if◌then◌else◌,
}
use swiftmind_parking_portal.Events.{PaymentCompleted}
use swiftmind_parking_portal.Notification.{
  Library, Notification, Env, insert, list, notify_issuer, handle_payment_completed,
}

take-take : (n : ℕ) (xs : List Notification) → take n (take n xs) ≡ take n xs
take-take zero xs = refl
take-take (suc n) [] = refl
take-take (suc n) (x ∷ xs) = ap (λ t. x ∷ t) (take-take n xs)

take_more : (n : ℕ) (xs : List Notification) → take n (take (suc n) xs) ≡ take n xs
take_more zero xs = refl
take_more (suc n) [] = refl
take_more (suc n) (x ∷ xs) = ap (λ t. x ∷ t) (take_more n xs)

-- A row that is inserted comes first in its recipient's list, and is in no other.
list-insert :
    (email recipient kind message id : String) (ns : List Notification)
    → list email (insert recipient kind message id ns) ≡ (
        if recipient =t email
        then take 50 (
            record { recipient = recipient; kind = kind; message = message; violation_id = id }
            ∷ list email ns)
        else list email ns)
unfolding list insert
list-insert email recipient kind message id ns = elim (Bool-cases (recipient =t email)) [
  | inl e ↦
      rw (e, select)
        (ap
          (λ t.
            record { recipient = recipient; kind = kind; message = message; violation_id = id } ∷ t)
          (sym (take_more 49 (select (λ n. n.recipient =t email) ns))))
  | inr e ↦ rw (e, select) refl
]

-- The notification tells of the payment for the violation.
abbrev pub IsAbout : String → Notification → Type 0
IsAbout id n = (n.kind ≡ "payment_completed") × (n.violation_id ≡ id)

-- A notification of the violation is among what the user is listed.
abbrev pub IsTold : (email id : String) → List Notification → Type 0
IsTold email id ns = Any (IsAbout id) (list email ns)

insert-IsTold :
    (recipient message id : String) (ns : List Notification)
    → IsTold recipient id (insert recipient "payment_completed" message id ns)
insert-IsTold recipient message id ns =
    rw (list-insert recipient recipient "payment_completed" message id ns, =t_refl recipient)
      (inl (refl, refl))

-- Another user is told of the same violation.
insert-keeps :
    (email recipient message id : String) (ns : List Notification)
    → IsTold email id ns
    → IsTold email id (insert recipient "payment_completed" message id ns)
insert-keeps email recipient message id ns h = elim (Bool-cases (recipient =t email)) [
  | inl e ↦ rw (list-insert email recipient "payment_completed" message id ns, e) (inl (refl, refl))
  | inr e ↦ rw (list-insert email recipient "payment_completed" message id ns, e) h
]

insert-others :
    (email recipient kind message id : String) (ns : List Notification)
    → email ≢ recipient
    → list email (insert recipient kind message id ns) ≡ list email ns
insert-others email recipient kind message id ns n =
    let other : (recipient =t email) ≡ false = ground (arith, eq_iff recipient email) in
    list-insert email recipient kind message id ns ∙ rw other refl

module _ (lib : Library) where
  notify_issuer-IsTold :
      (env : Env) (evt : PaymentCompleted) (ns : List Notification)
      → (notify_issuer lib env evt ns).0 ≡ false
      → (evt.issued_by_email ≡ "")
        ⊎ IsTold evt.issued_by_email evt.violation_id (notify_issuer lib env evt ns).1
  unfolding notify_issuer
  notify_issuer-IsTold env evt ns h = elim (Bool-cases (evt.issued_by_email =t "")) [
    | inl e ↦ inl ((eq_iff _ _).0 e)
    | inr e ↦ elim (Bool-cases env.issuer_fails) [
      | inl f ↦ ground (arith, e, f)
      | inr f ↦
          inr (rw (e, f, notify_issuer) (insert-IsTold evt.issued_by_email _ evt.violation_id ns))
    ]
  ]

  notify_issuer-keeps :
      (email : String) (env : Env) (evt : PaymentCompleted) (ns : List Notification)
      → IsTold email evt.violation_id ns
      → IsTold email evt.violation_id (notify_issuer lib env evt ns).1
  unfolding notify_issuer
  notify_issuer-keeps email env evt ns h = elim (Bool-cases (evt.issued_by_email =t "")) [
    | inl e ↦ rw (e, notify_issuer) h
    | inr e ↦ elim (Bool-cases env.issuer_fails) [
      | inl f ↦ rw (e, f, notify_issuer) h
      | inr f ↦
          rw (e, f, notify_issuer) (insert-keeps email evt.issued_by_email _ evt.violation_id ns h)
    ]
  ]

  -- When a completed payment has been handled without an error, the owner of the plate and the officer
  -- who issued the violation are both listed a notification of it, if they have an email.
  pub handle_payment_completed-IsTold :
      (env : Env) (evt : PaymentCompleted) (ns : List Notification)
      → (handle_payment_completed lib env evt ns).0 ≡ false
      → let ns' = (handle_payment_completed lib env evt ns).1 in
        ((evt.owner_email ≡ "") ⊎ IsTold evt.owner_email evt.violation_id ns')
        × ((evt.issued_by_email ≡ "") ⊎ IsTold evt.issued_by_email evt.violation_id ns')
  unfolding handle_payment_completed
  handle_payment_completed-IsTold env evt ns h = elim (Bool-cases (evt.owner_email =t "")) [
    | inl e ↦ (
      inl ((eq_iff _ _).0 e),
      rw (e, handle_payment_completed)
          (notify_issuer-IsTold env evt ns (rw (e, handle_payment_completed) at h)),
    )
    | inr e ↦ elim (Bool-cases env.owner_fails) [
      | inl f ↦ ground (arith, e, f)
      | inr f ↦ (
        inr (
            rw (e, f, handle_payment_completed)
              (notify_issuer-keeps evt.owner_email env evt _
                (insert-IsTold evt.owner_email _ evt.violation_id ns))),
        rw (e, f, handle_payment_completed)
            (notify_issuer-IsTold env evt _ (rw (e, f, handle_payment_completed) at h)),
      )
    ]
  ]

  notify_issuer-others :
      (email : String) (env : Env) (evt : PaymentCompleted) (ns : List Notification)
      → email ≢ evt.issued_by_email
      → list email (notify_issuer lib env evt ns).1 ≡ list email ns
  unfolding notify_issuer
  notify_issuer-others email env evt ns n = elim (Bool-cases (evt.issued_by_email =t "")) [
    | inl e ↦ rw (e, notify_issuer) refl
    | inr e ↦ elim (Bool-cases env.issuer_fails) [
      | inl f ↦ rw (e, f, notify_issuer) refl
      | inr f ↦ rw (e, f, notify_issuer) (insert-others email evt.issued_by_email _ _ _ ns n)
    ]
  ]

  -- Whatever fails, a completed payment changes nobody else's list.
  pub handle_payment_completed-others :
      (email : String) (env : Env) (evt : PaymentCompleted) (ns : List Notification)
      → email ≢ evt.owner_email
      → email ≢ evt.issued_by_email
      → list email (handle_payment_completed lib env evt ns).1 ≡ list email ns
  unfolding handle_payment_completed
  handle_payment_completed-others email env evt ns m n = elim (Bool-cases (evt.owner_email =t "")) [
    | inl e ↦ rw (e, handle_payment_completed) (notify_issuer-others email env evt ns n)
    | inr e ↦ elim (Bool-cases env.owner_fails) [
      | inl f ↦ rw (e, f, handle_payment_completed) refl
      | inr f ↦
          rw (e, f, handle_payment_completed)
            (notify_issuer-others email env evt _ n
              ∙ insert-others email evt.owner_email _ _ _ ns m)
    ]
  ]
