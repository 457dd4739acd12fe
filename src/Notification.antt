-- ===== src/Notification.antt =====
-- internal/notification/{store,service}.go: messages for the users, made of events. `strconv.FormatInt`
-- and `strings.ReplaceAll` are Go's: they come as `Library`. An insert that fails is chosen by `Env`.
pub mod Amount
pub mod Inbox
mod Tests
use Prim.Native.Char.{Char}
use Prim.Native.String
use swiftmind_parking_portal.Common.{
  ℕ, zero, suc, ◌-◌, String, Bool, true, false, List, [], ◌∷◌, ◌++◌, select, take, length, ltb,
  ◌=t◌, ◌+t◌, if◌then◌else◌,
}
use swiftmind_parking_portal.Common.Int.{ℤ}
use swiftmind_parking_portal.Events.{ViolationCreated, PaymentCompleted}

pub record Library : Type 0 where
  -- `strconv.FormatInt(n, 10)`
  pub format_int : ℤ → List Char
  -- `strings.ReplaceAll`
  pub replace_all : (s old new : String) → String

-- `Notification` with its recipient, without its identifier and its time; "" stands for the NULL of a
-- violation.
pub record Notification : Type 0 where
  pub recipient : String
  pub kind : String
  pub message : String
  pub violation_id : String

-- Which of the inserts of a handler fails.
pub record Env : Type 0 where
  pub owner_fails : Bool
  pub issuer_fails : Bool

abbrev pub kind_violation_issued : String
kind_violation_issued = "violation_issued"

abbrev pub kind_payment_completed : String
kind_payment_completed = "payment_completed"

-- `Store.Insert`, where it does not fail; the table is newest first.
unfoldable pub insert :
    (recipient kind message violation_id : String) → List Notification → List Notification
insert recipient kind message violation_id ns =
    record { recipient = recipient; kind = kind; message = message; violation_id = violation_id }
    ∷ ns

-- `Store.List` and `Service.List`, where the query does not fail.
unfoldable pub list : String → List Notification → List Notification
list email ns = take 50 (select (λ n. n.recipient =t email) ns)

-- `s[n:]`
abbrev pub drop {ℓ} : {A : Type ℓ} → ℕ → List A → List A
drop zero xs = xs
drop (suc n) [] = []
drop (suc n) (x ∷ xs) = drop n xs

-- The loop of `idr`, on fuel: each round takes three characters.
unfoldable pub idr_parts : (fuel : ℕ) → List Char → List (List Char) → List (List Char)
idr_parts zero s parts = s ∷ parts
idr_parts (suc fuel) s parts =
    let rest = idr_parts fuel (take (length s - 3) s) (drop (length s - 3) s ∷ parts) in
    if ltb 3 (length s) then rest else s ∷ parts

-- `strings.Join(parts, ".")`
abbrev pub join : List (List Char) → List Char
join [] = []
join (p ∷ []) = p
join (p ∷ (q ∷ ps)) = p ++ "." ∷ join (q ∷ ps)

-- The characters of a text.
abbrev pub pack : List Char → String
pack [] = String.[]
pack (c ∷ cs) = String.◌∷◌ c (pack cs)

module _ (lib : Library) where
  -- `humanize`.
  unfoldable pub humanize : String → String
  humanize s = lib.replace_all s "_" " "

  -- `idr`, with as much fuel as there are characters.
  unfoldable pub idr : ℤ → List Char
  unfolding idr_parts
  idr amount = let s = lib.format_int amount in "R" ∷ "p" ∷ " " ∷ join (idr_parts (length s) s [])

  -- `HandleViolationCreated`; the Boolean tells that it returns an error.
  unfoldable pub handle_violation_created :
      Env → ViolationCreated → List Notification → Bool × List Notification
  unfolding humanize idr insert
  handle_violation_created env evt ns =
      let message =
        "A "
        +t (humanize evt.violation_type
            +t (" violation was issued for plate "
                +t (evt.plate +t (". Fine: " +t (pack (idr evt.final_amount) +t "."))))) in
      if evt.owner_email =t ""
      then (false, ns)
      else if env.owner_fails
      then (true, ns)
      else (false, insert evt.owner_email kind_violation_issued message evt.violation_id ns)

  -- The second half of `HandlePaymentCompleted`.
  unfoldable pub notify_issuer :
      Env → PaymentCompleted → List Notification → Bool × List Notification
  unfolding idr insert
  notify_issuer env evt ns =
      let message =
        "A fine you issued for plate "
        +t (evt.plate +t (" was paid (" +t (pack (idr evt.amount) +t ")."))) in
      if evt.issued_by_email =t ""
      then (false, ns)
      else if env.issuer_fails
      then (true, ns)
      else (false, insert evt.issued_by_email kind_payment_completed message evt.violation_id ns)

  -- `HandlePaymentCompleted`.
  unfoldable pub handle_payment_completed :
      Env → PaymentCompleted → List Notification → Bool × List Notification
  unfolding notify_issuer idr insert
  handle_payment_completed env evt ns =
      let message =
        "Your payment of "
        +t (pack (idr evt.amount)
            +t (" was successful. Transaction " +t (evt.transaction_id +t "."))) in
      if evt.owner_email =t ""
      then notify_issuer env evt ns
      else if env.owner_fails
      then (true, ns)
      else notify_issuer env evt
          (insert evt.owner_email kind_payment_completed message evt.violation_id ns)
