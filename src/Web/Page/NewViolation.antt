-- ===== src/Web/Page/NewViolation.antt =====
-- web/src/app/violations/new/page.tsx: the form by which an officer submits a violation.
pub mod Submitting
mod Tests
use swiftmind_parking_portal.Common.{
  String, Bool, true, false, Option, none, some, List, [], ◌∷◌, map, ◌=t◌, ◌+t◌, if◌then◌else◌,
}
use swiftmind_parking_portal.Web.Host.{Host}
use swiftmind_parking_portal.Web.Types.{Violation, violation_types, label_for_type}
use swiftmind_parking_portal.Web.Format.{format_idr}
use swiftmind_parking_portal.Web.Client.{CreateViolationInput}
use swiftmind_parking_portal.Web.Markup.{
  Markup, text, ◌<>◌, element, component, button, input, choice, upload,
}
use swiftmind_parking_portal.Web.Effect.{Effect, push, toast_success, toast_error, mutate}
use swiftmind_parking_portal.Web.Http.{Outcome, ok, api_error, other_error}

-- The five states of the page; a file is its name and its content.
pub record Form : Type 0 where
  pub plate : String
  -- the state `type`
  pub violation_type : String
  pub location : String
  pub occurred_at : String
  pub photo : Option (String × String)

pub data Action : Type 0 where
  view_all submit : Action
  set_plate set_type set_location set_occurred_at : String → Action
  -- `e.target.files?.[0] ?? null`
  set_photo : Option (String × String) → Action

module _ (host : Host) where
  open host use {Num, now_iso, trim, to_upper, prefix, show_num}

  -- `nowUTC`.
  unfoldable pub now_utc : String
  now_utc = prefix 16 now_iso

  -- The initial states.
  unfoldable pub initial_form : Form
  unfolding now_utc
  initial_form = record {
    plate = "B1234ABC";
    violation_type = "expired_meter";
    location = "";
    occurred_at = now_utc;
    photo = none;
  }

  -- The variables that `onSubmit` hands to the mutation.
  unfoldable pub submitted : Form → CreateViolationInput
  submitted f = record {
    plate = to_upper (trim f.plate);
    violation_type = f.violation_type;
    location = trim f.location;
    occurred_at = f.occurred_at;
    photo = f.photo;
  }

  -- The handlers.
  unfoldable pub handle : Action → Form → Form × List (Effect CreateViolationInput)
  unfolding submitted
  handle view_all f = (f, push "/violations" ∷ [])
  handle submit f = (f, mutate (submitted f) ∷ [])
  handle (set_plate v) f = (record f { plate = v }, [])
  handle (set_type v) f = (if v =t "" then f else record f { violation_type = v }, [])
  handle (set_location v) f = (record f { location = v }, [])
  handle (set_occurred_at v) f = (record f { occurred_at = v }, [])
  handle (set_photo v) f = (record f { photo = v }, [])

  -- `onSuccess` and `onError` of the mutation `submit`.
  unfoldable pub issued : Outcome (Violation Num) → List (Effect CreateViolationInput)
  issued (ok v) =
      toast_success (
        "Violation issued — fine "
        +t (format_idr host v.final_amount +t (" (rule v" +t (show_num v.rule_version +t ")"))))
      ∷ push "/violations"
      ∷ []
  issued (api_error status message) = toast_error message ∷ []
  issued (other_error message) = toast_error message ∷ []

  abbrev labelled : String → Markup Action → Markup Action
  labelled label m = element "div" (element "Label" (text label) <> m)

  -- `NewViolationPage`.
  unfoldable pub view : (ready submitting : Bool) → Form → Markup Action
  view false submitting f = component "PageLoader"
  view true submitting f =
      component "AppHeader"
      <> element "main" (
          element "h1" (text "Submit a violation")
          <> button false view_all (text "View all →")
          <> element "CardTitle" (text "Violation details")
          <> element "CardDescription"
              (text "The fine is calculated from the active ruleset and snapshotted now.")
          <> labelled "License plate" (input (("required", "") ∷ []) f.plate set_plate)
          <> text "Demo: B1234ABC belongs to the member account."
          <> labelled "Violation type"
              (choice f.violation_type (map (λ t. (t, label_for_type t)) violation_types) set_type)
          <> labelled "Location" (input (("required", "") ∷ []) f.location set_location)
          <> labelled "Date & time (UTC)" (
              input (("type", "datetime-local") ∷ ("required", "") ∷ []) f.occurred_at
                set_occurred_at)
          <> labelled "Photo" (upload (("type", "file") ∷ ("accept", "image/*") ∷ []) set_photo)
          <> button submitting submit
              (text (if submitting then "Submitting…" else "Submit violation")))
