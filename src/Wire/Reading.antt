-- ===== src/Wire/Reading.antt =====
-- web/src/lib and web/src/contexts/auth-context.tsx: what the pages get of the answers. The casts of
-- TypeScript check nothing; here a value that does not have the fields of its interface is `none`.
use swiftmind_parking_portal.Common.{
  String, ◌≡◌, refl, inl, inr, Bool-cases, Option, none, some, List, [], ◌∷◌, map, ◌=t◌,
  if◌then◌else◌,
}
use swiftmind_parking_portal.Fine.Platform.{Runtime}
use swiftmind_parking_portal.Payment
use swiftmind_parking_portal.Notification as Service
use swiftmind_parking_portal.Identity.{PublicUser}
use swiftmind_parking_portal.Web.Host.{Host}
use swiftmind_parking_portal.Web.Types.{User, Invoice, Notification}
use swiftmind_parking_portal.Web.Http.{
  Json, num, str, arr, obj, Items, nil, cons, Fields, property, Fetched, Js, Outcome, ok, api_error,
  other_error, settle,
}
use swiftmind_parking_portal.Wire.{
  Encoder, items, encode_invoice, encode_notification, encode_user, pluck,
}

infixl 5 ◌>>=◌
abbrev ◌>>=◌ : {A B : Type 0} → Option A → (A → Option B) → Option B
none >>= f = none
some a >>= f = f a

abbrev as_text : Json → Option String
as_text (str s) = some s
as_text _ = none

abbrev text_at : String → Fields → Option String
text_at key fields = property key fields >>= as_text

-- A text that may be absent.
abbrev text_or_absent : Option Json → Option (Option String)
text_or_absent none = some none
text_or_absent (some v) = as_text v >>= (λ s. some (some s))

-- `User`.
unfoldable pub as_user : Json → Option User
as_user (obj fs) = do
  id ← text_at "id" fs
  email ← text_at "email" fs
  name ← text_at "name" fs
  role ← text_at "role" fs
  some (record { id = id; email = email; name = name; role = role })
as_user _ = none

-- `T[]`.
abbrev pub as_items : {A : Type 0} → (Json → Option A) → Items → Option (List A)
as_items read nil = some []
as_items read (cons v vs) = do x ← read v; xs ← as_items read vs; some (x ∷ xs)

abbrev pub as_list : {A : Type 0} → (Json → Option A) → Json → Option (List A)
as_list read (arr vs) = as_items read vs
as_list read _ = none

-- The value that a promise of `api` gives, taken at a key.
abbrev pub taken : {A : Type 0} → (Json → Option A) → Outcome (Option Json) → Option (Outcome A)
taken read (ok none) = none
taken read (ok (some v)) = read v >>= (λ x. some (ok x))
taken read (api_error status message) = some (api_error status message)
taken read (other_error message) = some (other_error message)

-- The call of `api` in `refresh` and in `login`.
unfoldable pub user_outcome : Js → Fetched → Option (Outcome User)
unfolding settle pluck as_user
user_outcome js f = taken as_user (pluck "user" (settle js f))

-- The account, as the web application has it.
abbrev pub web_user : PublicUser → User
web_user p = record { id = p.id; email = p.email; name = p.name; role = p.role }

pub as_user-encode_user : (p : PublicUser) → as_user (encode_user p) ≡ some (web_user p)
unfolding as_user encode_user
as_user-encode_user p = refl

-- `Notification`.
unfoldable pub as_notification : Json → Option Notification
as_notification (obj fs) = do
  id ← text_at "id" fs
  kind ← text_at "kind" fs
  message ← text_at "message" fs
  violation_id ← text_or_absent (property "violation_id" fs)
  created_at ← text_at "created_at" fs
  some (record {
    id = id;
    kind = kind;
    message = message;
    violation_id = violation_id;
    created_at = created_at;
  })
as_notification _ = none

-- The call of `api` in `listNotifications`.
unfoldable pub notifications_outcome : Js → Fetched → Option (Outcome (List Notification))
unfolding settle pluck as_notification
notifications_outcome js f = taken (as_list as_notification) (pluck "notifications" (settle js f))

module _ (rt : Runtime) (e : Encoder rt) where
  -- The notification of a row, as the web application has it.
  abbrev pub web_notification : String × Service.Notification → Notification
  web_notification (id, n) = record {
    id = id;
    kind = n.kind;
    message = n.message;
    violation_id = if n.violation_id =t "" then none else some n.violation_id;
    created_at = e.created_at id;
  }

  as_notification-encode_notification :
      (row : String × Service.Notification)
      → as_notification (encode_notification rt e row.0 row.1) ≡ some (web_notification row)
  unfolding as_notification encode_notification
  as_notification-encode_notification (id, n) = elim (Bool-cases (n.violation_id =t "")) [
    | inl m ↦ rw m refl
    | inr m ↦ rw m refl
  ]

  pub as_items-notifications :
      (rows : List (String × Service.Notification))
      → as_items as_notification (items (λ r. encode_notification rt e r.0 r.1) rows)
        ≡ some (map web_notification rows)
  as_items-notifications [] = refl
  as_items-notifications (r ∷ rows) =
      rw (as_notification-encode_notification r, as_items-notifications rows) refl

module _ (host : Host) where
  open host use {Num, number_of}

  abbrev number_at : String → Fields → Option Num
  number_at key fields = property key fields >>= as_number
    where
      as_number : Json → Option Num
      as_number (num n) = some (number_of n)
      as_number _ = none

  -- `Invoice`.
  unfoldable pub as_invoice : Json → Option (Invoice Num)
  as_invoice (obj fs) = do
    id ← text_at "id" fs
    violation_id ← text_at "violation_id" fs
    plate ← text_at "plate" fs
    violation_type ← text_at "violation_type" fs
    owner_email ← text_at "owner_email" fs
    amount ← number_at "amount" fs
    status ← text_at "status" fs
    transaction_id ← text_or_absent (property "transaction_id" fs)
    created_at ← text_at "created_at" fs
    some (record {
      id = id;
      violation_id = violation_id;
      plate = plate;
      violation_type = violation_type;
      owner_email = owner_email;
      amount = amount;
      status = status;
      transaction_id = transaction_id;
      created_at = created_at;
    })
  as_invoice _ = none

  -- The call of `api` in `listInvoices`.
  unfoldable pub invoices_outcome : Js → Fetched → Option (Outcome (List (Invoice Num)))
  unfolding settle pluck as_invoice
  invoices_outcome js f = taken (as_list as_invoice) (pluck "invoices" (settle js f))

  module _ (rt : Runtime) (e : Encoder rt) where
    -- The invoice, as the web application has it.
    abbrev pub web_invoice : Payment.Invoice → Invoice Num
    web_invoice i = record {
      id = i.id;
      violation_id = i.violation_id;
      plate = i.plate;
      violation_type = i.violation_type;
      owner_email = i.owner_email;
      amount = number_of (e.show_int i.amount);
      status = i.status;
      transaction_id = if i.transaction_id =t "" then none else some i.transaction_id;
      created_at = e.created_at i.id;
    }

    as_invoice-encode_invoice :
        (i : Payment.Invoice) → as_invoice (encode_invoice rt e i) ≡ some (web_invoice i)
    unfolding as_invoice encode_invoice
    as_invoice-encode_invoice i = elim (Bool-cases (i.transaction_id =t "")) [
      | inl n ↦ rw n refl
      | inr n ↦ rw n refl
    ]

    pub as_items-invoices :
        (is : List Payment.Invoice)
        → as_items as_invoice (items (encode_invoice rt e) is) ≡ some (map web_invoice is)
    as_items-invoices [] = refl
    as_items-invoices (i ∷ is) = rw (as_invoice-encode_invoice i, as_items-invoices is) refl
