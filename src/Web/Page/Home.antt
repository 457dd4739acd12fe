-- ===== src/Web/Page/Home.antt =====
-- web/src/app/page.tsx, web/src/components/app-header.tsx, notification-bell.tsx and
-- mode-toggle.tsx: the dashboard and the header of each page.
pub mod Bell
mod Tests
use swiftmind_parking_portal.Common.{
  ℕ, String, Bool, true, false, not, Option, none, some, List, [], ◌∷◌, lookup, length, take, ltb,
  ◌=t◌, ◌+t◌, if◌then◌else◌,
}
use swiftmind_parking_portal.Web.Host.{Host}
use swiftmind_parking_portal.Web.Types.{User, Notification, or_else}
use swiftmind_parking_portal.Web.Format.{format_date_time}
use swiftmind_parking_portal.Web.Markup.{
  Markup, nothing, text, ◌<>◌, element, component, button, when, each,
}
use swiftmind_parking_portal.Web.Effect.{Effect, push, replace}
use swiftmind_parking_portal.Web.Http.{Outcome, ok, api_error, other_error}
use swiftmind_parking_portal.Web.Auth.{Session, logout}

pub record RoleCard : Type 0 where
  pub title : String
  pub desc : String
  pub href : String

-- `ROLE_CARDS`.
unfoldable pub role_cards : List (String × List RoleCard)
role_cards =
    (
      "officer",
      record {
        title = "Submit violation";
        desc = "Record a parking violation with photo and location.";
        href = "/violations/new";
      }
          ∷ record {
            title = "Fine rules";
            desc = "View and publish new fine-rule versions.";
            href = "/rules";
          }
          ∷ record {
            title = "All violations";
            desc = "Browse every issued violation and its applied rule version.";
            href = "/violations";
          }
          ∷ [],
    )
    ∷ (
      "member",
      record {
        title = "Pay a fine";
        desc = "Settle an outstanding fine via the payment provider.";
        href = "/pay";
      }
          ∷ record {
            title = "My violations & history";
            desc =
                "Every violation on your plates with its fine, the rule version applied, and payment status.";
            href = "/violations";
          }
          ∷ [],
    )
    ∷ []

-- `ROLE_CARDS[user.role] ?? []`
unfoldable pub cards_for : String → List RoleCard
unfolding role_cards
cards_for role = or_else (lookup role role_cards) []

-- A link to the path.
pub data Action : Type 0 where
  follow : (href : String) → Action

abbrev card_link : RoleCard → Markup Action
card_link c = button false (follow c.href) (
    element "CardTitle" (text c.title)
    <> element "CardDescription" (text c.desc)
    <> element "Badge" (text "Open"))

abbrev after_logout : Outcome (Unit {0}) → List (Effect ⊥)
after_logout (ok tt) = replace "/login" ∷ []
after_logout (api_error status message) = []
after_logout (other_error message) = []

-- `onLogout` of `AppHeader`: the new session, and what follows where `logout` did not throw.
unfoldable pub on_logout : Outcome (Unit {0}) → Session → Session × List (Effect ⊥)
unfolding logout
on_logout o s = let (s', r) = logout o s in (s', after_logout r)

pub data HeaderAction : Type 0 where
  toggle_theme sign_out : HeaderAction

-- `AppHeader`.
unfoldable pub header : Option User → Markup HeaderAction
header none = nothing
header (some u) = element "header" (
    text "ParkWatch"
    <> element "Badge" (text u.role)
    <> text u.name
    <> component "NotificationBell"
    <> button false toggle_theme (component "Sun")
    <> button false sign_out (text "Sign out"))

-- The handler of `ModeToggle`: the theme that it sets, from the resolved one.
unfoldable pub next_theme : String → String
next_theme resolved = if resolved =t "dark" then "light" else "dark"

-- `openTarget` of `NotificationBell`: the menu is closed, and the page changes.
unfoldable pub open_target : Option String → Bool × List (Effect ⊥)
open_target none = (false, push "/violations" ∷ [])
open_target (some id) =
    (false, push (if id =t "" then "/violations" else "/violations/" +t id) ∷ [])

-- The bell's action is `openTarget` at the violation of a notification.
pub data BellAction : Type 0 where
  open_notification : Option String → BellAction

module _ (host : Host) where
  open host use {show_num, of_ℕ, first_word}

  -- `HomePage`.
  unfoldable pub view : (ready : Bool) → Option User → Markup Action
  view false user = component "PageLoader"
  view true none = component "PageLoader"
  view true (some u) =
      component "AppHeader"
      <> element "main" (
          element "h1" (text ("Welcome, " +t first_word u.name))
          <> element "p" (text "You are signed in as a " <> text u.role <> text ".")
          <> each card_link (cards_for u.role))

  -- The badge of the bell: the number of notifications, or "9+".
  unfoldable pub bell_badge : List Notification → Markup BellAction
  bell_badge items =
      when (ltb 0 (length items))
        (text (if ltb 9 (length items) then "9+" else show_num (of_ℕ (length items))))

  abbrev notification_row : Notification → Markup BellAction
  notification_row n =
      button false (open_notification n.violation_id)
        (element "p" (text n.message) <> element "p" (text (format_date_time host n.created_at)))

  -- `NotificationBell`, on the data of its query.
  unfoldable pub bell : Option (List Notification) → Markup BellAction
  unfolding bell_badge
  bell result =
      let items = or_else result [] in
      bell_badge items
      <> text "Notifications"
      <> (if ltb 0 (length items)
          then each notification_row (take 15 items)
          else text "No notifications yet.")
