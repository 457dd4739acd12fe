-- ===== src/Web/Page/Receipt.antt =====
-- web/src/app/receipt/[id]/page.tsx: the receipt of a paid invoice.
pub mod Paid
mod Tests
use swiftmind_parking_portal.Common.{
  String, Bool, true, false, Option, none, some, List, [], ◌∷◌, find?, ◌=t◌, if◌then◌else◌,
}
use swiftmind_parking_portal.Web.Host.{Host}
use swiftmind_parking_portal.Web.Types.{Invoice, label_for_type, or_else}
use swiftmind_parking_portal.Web.Format.{format_idr}
use swiftmind_parking_portal.Web.Markup.{
  Markup, nothing, text, ◌<>◌, element, component, button, when,
}
use swiftmind_parking_portal.Web.Effect.{Effect, push, print_window, Query}

pub data Action : Type 0 where
  back print_receipt : Action

-- The handlers.
unfoldable pub handle : Action → List (Effect ⊥)
handle back = push "/pay" ∷ []
handle print_receipt = print_window ∷ []

-- `Line`.
unfoldable pub line : String → String → Markup Action
line label value = element "div" (element "dt" (text label) <> element "dd" (text value))

module _ (host : Host) where
  open host use {Num, locale_string, now_iso}

  -- `data?.find((i) => i.id === params.id)`
  unfoldable pub find_invoice : String → Option (List (Invoice Num)) → Option (Invoice Num)
  find_invoice id none = none
  find_invoice id (some invs) = find? (λ i. i.id =t id) invs

  unfoldable pub print_button : Option (Invoice Num) → Markup Action
  print_button none = nothing
  print_button (some inv) =
      when (inv.status =t "paid") (button false print_receipt (text "Print / Save as PDF"))

  -- The receipt itself.
  unfoldable pub receipt : Invoice Num → Markup Action
  unfolding line
  receipt inv =
      element "p" (text "ParkWatch")
      <> element "p" (text "Payment Receipt")
      <> element "p" (text "Amount paid")
      <> element "p" (text (format_idr host inv.amount))
      <> element "Badge" (text "PAID")
      <> line "Plate" inv.plate
      <> line "Violation" (label_for_type inv.violation_type)
      <> line "Invoice ID" inv.id
      <> line "Transaction ID" (or_else inv.transaction_id "—")
      <> line "Generated" (locale_string now_iso "en-GB" "medium" "short" none)
      <> element "p" (text "Payment provider is mocked for assignment review. Thank you.")

  -- The branch below the buttons, on `isPending` and `inv`.
  unfoldable pub content : Bool → Option (Invoice Num) → Markup Action
  unfolding receipt
  content true inv = text "Loading…"
  content false none = text "Receipt not found."
  content false (some inv) =
      if inv.status =t "paid" then receipt inv else text "This invoice has not been paid yet."

  -- `ReceiptPage`.
  unfoldable pub view : (ready : Bool) (id : String) → Query (List (Invoice Num)) → Markup Action
  unfolding content print_button find_invoice
  view false id q = component "PageLoader"
  view true id q =
      let inv = find_invoice id q.result in
      element "main"
        (button false back (text "← Back") <> print_button inv <> content q.is_pending inv)
