-- ===== src/System/Ledger.antt =====
-- internal/payment/store.go: what the operations of the payment service leave of the invoices.
use swiftmind_parking_portal.Common.{
  String, ◌≡◌, ◌≢◌, refl, sym, ap, ◌∙◌, ◌⊎◌, inl, inr, Bool, true, false, Bool-cases, none, some,
  Option-cases, List, ◌∷◌, find?, ◌=t◌, eq_iff, arith, if◌then◌else◌, All, Any, All-imp, Any-imp,
  Any-map, Any-find?, Any-All, Any-gives, All-Any-map, All-Any_refl,
}
use swiftmind_parking_portal.Events.{ViolationCreated, PaymentCompleted}
use swiftmind_parking_portal.Payment.Counts.{check-none, check-proceed, join-same}
use swiftmind_parking_portal.Payment.{
  Invoice, Payment, World, join, is_paid_for, get, check, proceed, publish_completed,
  create_invoice, create_invoice_from_event, invoice_of, mark_paid,
}

-- The same invoice, perhaps paid by now.
abbrev pub Continues : Invoice → Invoice → Type 0
Continues i j = (j ≡ i) ⊎ (j ≡ record i { status = "paid" })

-- Every invoice is still there.
abbrev pub Lasts : List Invoice → List Invoice → Type 0
Lasts invs invs' = All (λ i. Any (Continues i) invs') invs

pub Lasts-refl : (invs : List Invoice) → Lasts invs invs
Lasts-refl invs = All-Any_refl Continues invs (λ i. inl refl)

-- The event of a payment of the invoice.
abbrev pub completed : Invoice → String → PaymentCompleted
completed i txn = record {
  invoice_id = i.id;
  violation_id = i.violation_id;
  plate = i.plate;
  owner_email = i.owner_email;
  issued_by_email = i.issued_by_email;
  amount = i.amount;
  transaction_id = txn;
}

-- The event is of a payment of a paid invoice.
abbrev pub IsCompleted : List Invoice → PaymentCompleted → Type 0
IsCompleted invs e = Any (λ i. (i.status ≡ "paid") × (e ≡ completed i e.transaction_id)) invs

-- The row that `mark_paid` makes of a row.
abbrev pub mark : String → Invoice → Invoice
mark id i = if i.id =t id then record i { status = "paid" } else i

mark-Continues :
    (here : Bool) (i : Invoice) → Continues i (if here then record i { status = "paid" } else i)
mark-Continues true i = inr refl
mark-Continues false i = inl refl

pub mark-same_id : (id : String) (i : Invoice) → (mark id i).id ≡ i.id
mark-same_id id i = elim (Bool-cases (i.id =t id)) [ inl e ↦ rw e refl | inr e ↦ rw e refl ]

pub mark_paid-Lasts : (id : String) (w : World) → Lasts w.invoices (mark_paid id w).invoices
unfolding mark_paid
mark_paid-Lasts id w =
    All-Any-map Continues (mark id) w.invoices (λ i. mark-Continues (i.id =t id) i)

-- The invoice of an event is added, or an invoice of its violation is there already.
pub create_invoice_from_event-cases :
    (id : String) (evt : ViolationCreated) (w : World)
    → ((create_invoice_from_event id evt w).invoices
          ≡ record (invoice_of id evt) { status = "open" } ∷ w.invoices)
        × (find? (λ i. i.violation_id =t evt.violation_id) w.invoices ≡ none)
      ⊎ ((create_invoice_from_event id evt w).invoices ≡ w.invoices)
        × (inv : Invoice) × (find? (λ i. i.violation_id =t evt.violation_id) w.invoices ≡ some inv)
unfolding create_invoice_from_event create_invoice
create_invoice_from_event-cases id evt w =
    elim (Option-cases (find? (λ i. i.violation_id =t evt.violation_id) w.invoices)) [
      | inl e ↦ inl (rw (e, create_invoice) refl, e)
      | inr (row, e) ↦ inr (rw (e, create_invoice) refl, row, e)
    ]

pub create_invoice_from_event-events :
    (id : String) (evt : ViolationCreated) (w : World)
    → (create_invoice_from_event id evt w).events ≡ w.events
unfolding create_invoice_from_event create_invoice
create_invoice_from_event-events id evt w =
    elim (Option-cases (find? (λ i. i.violation_id =t evt.violation_id) w.invoices)) [
      | inl e ↦ rw (e, create_invoice) refl
      | inr (row, e) ↦ rw (e, create_invoice) refl
    ]

pub create_invoice_from_event-Lasts :
    (id : String) (evt : ViolationCreated) (w : World)
    → Lasts w.invoices (create_invoice_from_event id evt w).invoices
create_invoice_from_event-Lasts id evt w = elim (create_invoice_from_event-cases id evt w) [
  | inl (e, _) ↦ rw e (All-imp w.invoices (λ i h. inr h) (Lasts-refl w.invoices))
  | inr (e, _, _) ↦ rw e (Lasts-refl w.invoices)
]

-- What is kept along `Continues` is kept of the list.
pub Lasts-Any :
    (P : Invoice → Type 0) (invs invs' : List Invoice)
    → ((i j : Invoice) → Continues i j → P i → P j)
    → Lasts invs invs'
    → Any P invs
    → Any P invs'
Lasts-Any P invs invs' f l h =
    Any-gives _ invs (λ i k. Any-imp invs' (λ j c. f i j c k.0) k.1)
      (Any-All P (λ i. Any (Continues i) invs') invs h l)

-- A paid invoice of the violation.
abbrev pub IsPaidFor : String → Invoice → Type 0
IsPaidFor id i = (i.status ≡ "paid") × (i.violation_id ≡ id)

pub IsPaidFor-Continues :
    (id : String) (i j : Invoice) → Continues i j → IsPaidFor id i → IsPaidFor id j
IsPaidFor-Continues id i j (inl c) h = rw c h
IsPaidFor-Continues id i j (inr c) h = rw c (refl, h.1)

join-fields :
    (ps : List Payment) (i : Invoice)
    → join ps i ≡ record i { transaction_id = (join ps i).transaction_id }
join-fields ps i = elim (Option-cases (find? (is_paid_for i.id) ps)) [
  | inl e ↦ rw (e, join) refl
  | inr (p, e) ↦ rw (e, join) refl
]

-- The row behind the invoice that `Pay` goes on with.
pub check-row :
    (id caller : String) (w : World) (inv : Invoice)
    → check caller (get id w) ≡ proceed inv
    → (row : Invoice) × (find? (λ i. i.id =t id) w.invoices ≡ some row)
      × (inv ≡ record row { transaction_id = inv.transaction_id })
      × (row.owner_email ≡ caller)
      × (row.status ≢ "paid")
unfolding get
check-row id caller w inv h = elim (Option-cases (find? (λ i. i.id =t id) w.invoices)) [
  | inl e ↦ absurd (check-none caller inv (rw (e, get) at h))
  | inr (row, e) ↦
      let (found, unpaid, owner, _) =
        check-proceed caller (join w.payments row) inv (rw (e, get) at h) in
      let (_, same_status, same_owner) = join-same w.payments row in
      (
        row,
        e,
        rw found at (join-fields w.payments row),
        sym same_owner ∙ owner,
        λ p. unpaid (same_status ∙ p),
      )
]

IsCompleted-Continues :
    (i j : Invoice) (e : PaymentCompleted)
    → Continues i j
    → (i.status ≡ "paid") × (e ≡ completed i e.transaction_id)
    → (j.status ≡ "paid") × (e ≡ completed j e.transaction_id)
IsCompleted-Continues i j e (inl c) h = rw c h
IsCompleted-Continues i j e (inr c) h = rw c (refl, h.1)

pub IsCompleted-Lasts :
    (invs invs' : List Invoice) (e : PaymentCompleted)
    → Lasts invs invs'
    → IsCompleted invs e
    → IsCompleted invs' e
IsCompleted-Lasts invs invs' e = Lasts-Any _ invs invs' (λ i j c h. IsCompleted-Continues i j e c h)

mark-IsCompleted :
    (txn : String) (inv row : Invoice)
    → inv ≡ record row { transaction_id = inv.transaction_id }
    → ((mark inv.id row).status ≡ "paid") × (completed inv txn ≡ completed (mark inv.id row) txn)
mark-IsCompleted txn inv row e =
    let same_id : inv.id ≡ row.id = ap (λ i. i.id) e in
    let here : (row.id =t inv.id) ≡ true = ground (arith, eq_iff row.id inv.id) in
    rw (here, mark) (refl, ap (λ i. completed i txn) e)

-- The event that a payment of a row publishes is of the row as it is then.
pub publish_completed-IsCompleted :
    (publishes : Bool) (id txn : String) (inv row : Invoice) (w : World)
    → find? (λ i. i.id =t id) w.invoices ≡ some row
    → inv ≡ record row { transaction_id = inv.transaction_id }
    → All (IsCompleted w.invoices) w.events
    → All (IsCompleted (mark_paid inv.id w).invoices) (publish_completed publishes inv txn w).events
unfolding publish_completed mark_paid
publish_completed-IsCompleted false id txn inv row w f e h =
    All-imp w.events (λ x c. IsCompleted-Lasts w.invoices _ x (mark_paid-Lasts inv.id w) c) h
publish_completed-IsCompleted true id txn inv row w f e h = (
  Any-map (λ i. (i.status ≡ "paid") × (completed inv txn ≡ completed i txn)) (mark inv.id)
      w.invoices
      (Any-imp w.invoices (λ x p. rw p (mark-IsCompleted txn inv row e))
        (Any-find? (λ x. x ≡ row) _ w.invoices row f refl)),
  All-imp w.events (λ x c. IsCompleted-Lasts w.invoices _ x (mark_paid-Lasts inv.id w) c) h,
)
