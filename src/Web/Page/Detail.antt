-- ===== src/Web/Page/Detail.antt =====
-- web/src/app/violations/[id]/page.tsx: one violation, with the calculation of its fine.
mod Snapshot
mod Tests
use swiftmind_parking_portal.Common.{
  String, Bool, true, false, Option, none, some, List, [], ◌∷◌, ◌=t◌, ◌+t◌, if◌then◌else◌,
}
use swiftmind_parking_portal.Web.Host.{Host}
use swiftmind_parking_portal.Web.Types.{User, Violation, label_for_type}
use swiftmind_parking_portal.Web.Format.{format_idr, format_date_time, format_date_time_utc}
use swiftmind_parking_portal.Web.Markup.{Markup, nothing, text, ◌<>◌, element, component, button}
use swiftmind_parking_portal.Web.Effect.{Effect, push}

pub data Action : Type 0 where
  back : Action

-- The handler.
unfoldable pub handle : Action → List (Effect ⊥)
handle back = push "/violations" ∷ []

-- `Row`.
unfoldable pub row : String → String → Markup Action
row label value = element "div" (element "span" (text label) <> element "span" (text value))

-- `v.photo_url && <img>`
unfoldable pub photo : String → Option String → Markup Action
photo plate none = nothing
photo plate (some url) =
    if url =t "" then nothing else element "img" (text url <> text ("Violation " +t plate))

module _ (host : Host) where
  open host use {Num, show_num}

  -- The card "Fine calculation".
  unfoldable pub calculation : Violation Num → Markup Action
  unfolding row
  calculation v =
      element "CardTitle" (text "Fine calculation")
      <> element "CardDescription" (
          text (
            "Snapshotted from rule version v"
            +t (show_num v.rule_version
                +t " at issue time — a later rule change does not affect it.")))
      <> row "Base amount" (format_idr host v.base_amount)
      <> row "Time multiplier" ("× " +t show_num v.time_multiplier)
      <> row ("Repeat multiplier (" +t (show_num v.prior_unpaid_count +t " prior unpaid)"))
          ("× " +t show_num v.repeat_multiplier)
      <> text "Final fine"
      <> text (format_idr host v.final_amount)
      <> element "p" (text ("Applied rule version: v" +t show_num v.rule_version))

  -- The card "Details".
  unfoldable pub details : Violation Num → Markup Action
  unfolding row
  details v =
      element "CardTitle" (text "Details")
      <> row "Location" v.location
      <> row "Occurred at" (format_date_time_utc host v.occurred_at)
      <> row "Issued by" v.issued_by_email
      <> row "Plate owner" (if v.owner_email =t "" then "—" else v.owner_email)
      <> row "Recorded at" (format_date_time host v.created_at)

  -- The branch below the heading, on `isPending`, `isError` and `data`.
  unfoldable pub content : (pending failed : Bool) → Option (Violation Num) → Markup Action
  unfolding calculation details photo
  content true failed result = text "Loading…"
  content false true result = text "Violation not found."
  content false false none = text "Violation not found."
  content false false (some v) =
      text v.plate
      <> element "Badge" (text (label_for_type v.violation_type))
      <> element "Badge" (text (if v.payment_status =t "paid" then "Paid" else "Unpaid"))
      <> photo v.plate v.photo_url
      <> element "Card" (calculation v)
      <> element "Card" (details v)

  -- `ViolationDetailPage`.
  unfoldable pub view :
      (ready : Bool)
      → Option User
      → (pending failed : Bool) → Option (Violation Num)
      → Markup Action
  unfolding content
  view false user pending failed result = component "PageLoader"
  view true none pending failed result = component "PageLoader"
  view true (some u) pending failed result =
      component "AppHeader"
      <> element "main" (
          element "h1" (text "Violation detail")
          <> button false back (text "← Back")
          <> content pending failed result)
