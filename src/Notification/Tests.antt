-- ===== src/Notification/Tests.antt =====
-- The notification service at concrete inputs.
use Prim.Native.Char.{Char}
use swiftmind_parking_portal.Common.{
  ℕ, zero, suc, ◌+◌, ◌/◌, ◌%◌, ◌==◌, ltb, if◌then◌else◌, ◌≡◌, refl, false, List, [], ◌∷◌, ◌⊎◌,
  eq_iff, arith,
}
use swiftmind_parking_portal.Common.Int.{ℤ, pos, negsuc}
use swiftmind_parking_portal.Events.{PaymentCompleted}
use swiftmind_parking_portal.Notification.{Library, Env, join, idr, list, handle_payment_completed}
use swiftmind_parking_portal.Notification.Amount.{concat, IsGrouped, idr-IsGrouped}
use swiftmind_parking_portal.Notification.Inbox.{
  IsTold, handle_payment_completed-IsTold, handle_payment_completed-others,
}

abbrev digit : ℕ → Char
digit n =
    if n == 0
    then "0"
    else if n == 1
    then "1"
    else if n == 2
    then "2"
    else if n == 3
    then "3"
    else if n == 4
    then "4"
    else if n == 5
    then "5"
    else if n == 6
    then "6"
    else if n == 7
    then "7"
    else if n == 8
    then "8"
    else "9"

-- The decimal digits of a number, on fuel that bounds how many there are, before some others.
abbrev digits : (fuel n : ℕ) → List Char → List Char
digits zero n ds = ds
digits (suc fuel) n ds =
    let rest = digits fuel (n / 10) (digit (n % 10) ∷ ds) in if ltb n 10 then digit n ∷ ds else rest

-- Numbers of up to twenty digits.
abbrev decimal : ℤ → List Char
decimal (pos n) = digits 20 n []
decimal (negsuc n) = "-" ∷ digits 20 (n + 1) []

abbrev texts : Library
texts = record { format_int = decimal; replace_all = λ s old new. s }

idr-texts :
    idr texts (pos 1500000)
    ≡ "R" ∷ "p" ∷ " " ∷ "1" ∷ "." ∷ "5" ∷ "0" ∷ "0" ∷ "." ∷ "0" ∷ "0" ∷ "0" ∷ []
unfolding idr
idr-texts = refl

idr-IsGrouped_example :
    (parts : List (List Char)) × (idr texts (pos 1500000) ≡ "R" ∷ "p" ∷ " " ∷ join parts)
    × IsGrouped parts
    × (concat parts ≡ texts.format_int (pos 1500000))
idr-IsGrouped_example = idr-IsGrouped texts (pos 1500000) (omega arith)

abbrev paid : PaymentCompleted
paid = record {
  invoice_id = "inv-1";
  violation_id = "v-1";
  plate = "B1234ABC";
  owner_email = "member@parkwatch.test";
  issued_by_email = "officer@parkwatch.test";
  amount = pos 1500000;
  transaction_id = "txn_1";
}

abbrev works : Env
works = record { owner_fails = false; issuer_fails = false }

handled : (handle_payment_completed texts works paid []).0 ≡ false
unfolding handle_payment_completed
handled = refl

handle_payment_completed-IsTold_example :
    let ns = (handle_payment_completed texts works paid []).1 in
    ((paid.owner_email ≡ "") ⊎ IsTold "member@parkwatch.test" "v-1" ns)
    × ((paid.issued_by_email ≡ "") ⊎ IsTold "officer@parkwatch.test" "v-1" ns)
handle_payment_completed-IsTold_example =
    handle_payment_completed-IsTold texts works paid [] handled

handle_payment_completed-others_example :
    list "other@parkwatch.test" (handle_payment_completed texts works paid []).1
    ≡ list "other@parkwatch.test" []
handle_payment_completed-others_example =
    handle_payment_completed-others texts "other@parkwatch.test" works paid []
      (ground (arith, eq_iff "other@parkwatch.test" "member@parkwatch.test"))
      (ground (arith, eq_iff "other@parkwatch.test" "officer@parkwatch.test"))
