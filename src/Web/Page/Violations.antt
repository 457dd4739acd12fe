-- ===== src/Web/Page/Violations.antt =====
-- web/src/app/violations/page.tsx: the list of violations.
mod Links
mod Tests
use swiftmind_parking_portal.Common.{
  String, Bool, true, false, Option, none, some, List, [], ◌∷◌, ◌=t◌, ◌+t◌, if◌then◌else◌,
}
use swiftmind_parking_portal.Web.Host.{Host}
use swiftmind_parking_portal.Web.Types.{User, Violation, label_for_type}
use swiftmind_parking_portal.Web.Format.{format_idr, format_date_time_utc}
use swiftmind_parking_portal.Web.Markup.{
  Markup, nothing, text, ◌<>◌, element, component, button, when, each,
}
use swiftmind_parking_portal.Web.Effect.{Effect, push}

pub data Action : Type 0 where
  to_dashboard to_new : Action
  open_violation : (id : String) → Action

-- The handlers.
unfoldable pub handle : Action → List (Effect ⊥)
handle to_dashboard = push "/" ∷ []
handle to_new = push "/violations/new" ∷ []
handle (open_violation id) = push ("/violations/" +t id) ∷ []

-- `v.photo_url ? <img> : "—"`, where an empty text is no photo.
unfoldable pub photo_cell : String → Option String → Markup Action
photo_cell plate none = text "—"
photo_cell plate (some url) =
    if url =t "" then text "—" else element "img" (text url <> text ("Violation " +t plate))

module _ (host : Host) where
  open host use {Num, show_num}

  -- A violation's row, which opens its page.
  unfoldable pub row : Violation Num → Markup Action
  unfolding photo_cell
  row v = button false (open_violation v.id) (
      element "TableCell" (text v.plate)
      <> element "TableCell" (text (label_for_type v.violation_type) <> text v.location)
      <> element "TableCell" (text (format_date_time_utc host v.occurred_at))
      <> element "TableCell" (
          text (format_idr host v.final_amount)
          <> text (format_idr host v.base_amount)
          <> text " × "
          <> text (show_num v.time_multiplier)
          <> text " × "
          <> text (show_num v.repeat_multiplier))
      <> element "TableCell" (element "Badge" (text ("v" +t show_num v.rule_version)))
      <> element "TableCell"
          (element "Badge" (text (if v.payment_status =t "paid" then "Paid" else "Unpaid")))
      <> element "TableCell" (photo_cell v.plate v.photo_url))

  abbrev columns : List String
  columns = "Plate" ∷ "Type" ∷ "When" ∷ "Fine" ∷ "Rule" ∷ "Status" ∷ "Photo" ∷ []

  abbrev table : List (Violation Num) → Markup Action
  table vs = element "Table" (
      element "TableHeader" (each (λ c. element "TableHead" (text c)) columns)
      <> element "TableBody" (each row vs))

  -- The card, on `isPending` and `data`.
  unfoldable pub card : Bool → Option (List (Violation Num)) → Markup Action
  unfolding row
  card true result = text "Loading…"
  card false none = table []
  card false (some []) = text "No violations yet."
  card false (some (v ∷ vs)) = table (v ∷ vs)

  abbrev is_officer : User → Bool
  is_officer u = u.role =t "officer"

  -- `ViolationsPage`.
  unfoldable pub view :
      (ready : Bool)
      → Option User
      → (pending : Bool) → Option (List (Violation Num))
      → Markup Action
  unfolding card
  view false user pending result = component "PageLoader"
  view true none pending result = component "PageLoader"
  view true (some u) pending result =
      component "AppHeader"
      <> element "main" (
          element "h1" (text (if is_officer u then "All violations" else "My violations"))
          <> element "p" (text "Each fine shows the rule version applied when it was issued.")
          <> button false to_dashboard (text "← Dashboard")
          <> when (is_officer u) (button false to_new (text "Submit violation"))
          <> element "Card" (card pending result))
