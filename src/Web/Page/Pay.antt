-- ===== src/Web/Page/Pay.antt =====
-- web/src/app/pay/page.tsx: a member's invoices, and their payment.
pub mod Buttons
mod Tests
use swiftmind_parking_portal.Common.{
  ℕ, String, Bool, true, false, not, ◌&&◌, ◌||◌, Option, none, some, List, [], ◌∷◌, lookup, insert,
  ◌=t◌, ◌+t◌, if◌then◌else◌, length,
}
use swiftmind_parking_portal.Web.Host.{Host}
use swiftmind_parking_portal.Web.Types.{Invoice, PayResult, label_for_type, or_else}
use swiftmind_parking_portal.Web.Format.{format_idr}
use swiftmind_parking_portal.Web.Markup.{
  Markup, nothing, text, ◌<>◌, element, component, button, choice, when, each,
}
use swiftmind_parking_portal.Web.Effect.{
  Effect, push, toast_success, toast_error, invalidate, mutate, Query, Mutation,
}
use swiftmind_parking_portal.Web.Http.{Outcome, ok, api_error, other_error}

-- The variables of the mutation `pay`.
pub record PayVars : Type 0 where
  pub id : String
  pub scenario : String

pub data Action : Type 0 where
  to_dashboard : Action
  -- `onValueChange` of the invoice's select
  choose : (id value : String) → Action
  pay : PayVars → Action
  print_receipt : (id : String) → Action

-- The state `scenarios`.
abbrev pub Scenarios : Type 0
Scenarios = List (String × String)

-- `scenarios[inv.id] ?? "success"`
abbrev pub scenario_of : Scenarios → String → String
scenario_of scenarios id = or_else (lookup id scenarios) "success"

-- `pay.isPending && pay.variables?.id === inv.id`
abbrev pub is_paying : Mutation PayVars → String → Bool
is_paying m id = elim m.variables [ none ↦ false | some vars ↦ m.is_pending && vars.id =t id ]

-- The handlers.
unfoldable pub handle : Action → Scenarios → Scenarios × List (Effect PayVars)
handle to_dashboard s = (s, push "/" ∷ [])
handle (choose id value) s = (if value =t "" then s else insert id value s, [])
handle (pay vars) s = (s, mutate vars ∷ [])
handle (print_receipt id) s = (s, push ("/receipt/" +t id) ∷ [])

-- `onSuccess` and `onError` of the mutation `pay`.
unfoldable pub paid : Outcome PayResult → List (Effect PayVars)
paid (ok res) =
    (if res.status =t "paid"
      then toast_success ("Payment successful — " +t res.transaction_id)
      else toast_error ("Payment failed — " +t res.transaction_id))
    ∷ invalidate ("invoices" ∷ [])
    ∷ invalidate ("violations" ∷ [])
    ∷ []
paid (api_error status message) = toast_error message ∷ []
paid (other_error message) = toast_error message ∷ []

module _ (host : Host) where
  open host use {Num}

  -- The last cell of an invoice's row.
  unfoldable pub payment_cell : Scenarios → Mutation PayVars → Invoice Num → Markup Action
  payment_cell scenarios m inv =
      if inv.status =t "paid"
      then element "div" (text (or_else inv.transaction_id "—"))
        <> button false (print_receipt inv.id) (text "Print receipt")
      else choice (scenario_of scenarios inv.id)
          (("success", "Success") ∷ ("failed", "Failed") ∷ []) (choose inv.id)
        <> button (is_paying m inv.id)
            (pay (record { id = inv.id; scenario = scenario_of scenarios inv.id }))
            (text (if is_paying m inv.id then "Paying…" else "Pay"))

  -- An invoice's row.
  unfoldable pub row : Scenarios → Mutation PayVars → Invoice Num → Markup Action
  unfolding payment_cell
  row scenarios m inv = element "TableRow" (
      element "TableCell" (text inv.plate)
      <> element "TableCell" (text (label_for_type inv.violation_type))
      <> element "TableCell" (text (format_idr host inv.amount))
      <> element "TableCell"
          (element "Badge" (text (if inv.status =t "paid" then "Paid" else "Open")))
      <> element "TableCell" (payment_cell scenarios m inv))

  abbrev columns : List String
  columns = "Plate" ∷ "Type" ∷ "Amount" ∷ "Status" ∷ "Payment" ∷ []

  abbrev table : Scenarios → Mutation PayVars → List (Invoice Num) → Markup Action
  table scenarios m invs = element "Table" (
      element "TableHeader" (each (λ c. element "TableHead" (text c)) columns)
      <> element "TableBody" (each (row scenarios m) invs))

  -- The card: loading, empty, or the table, which has no rows where the query failed.
  unfoldable pub card :
      Scenarios → Mutation PayVars → Bool → Option (List (Invoice Num)) → Markup Action
  unfolding row
  card scenarios m true result = text "Loading…"
  card scenarios m false none = table scenarios m []
  card scenarios m false (some []) = text "No invoices yet."
  card scenarios m false (some (inv ∷ invs)) = table scenarios m (inv ∷ invs)

  -- `PayPage`.
  unfoldable pub view :
      (ready : Bool) → Scenarios → Mutation PayVars → Query (List (Invoice Num)) → Markup Action
  unfolding card
  view false scenarios m q = component "PageLoader"
  view true scenarios m q =
      component "AppHeader"
      <> element "main" (
          element "h1" (text "Pay a fine")
          <> element "p"
              (text "Choose a payment outcome to exercise both paths (the provider is mocked).")
          <> button false to_dashboard (text "← Dashboard")
          <> element "Card" (card scenarios m q.is_pending q.result))
