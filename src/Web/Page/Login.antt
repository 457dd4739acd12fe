-- ===== src/Web/Page/Login.antt =====
-- web/src/app/login/page.tsx: signing in.
pub mod Submitting
mod Tests
use swiftmind_parking_portal.Common.{
  String, Bool, true, false, Option, none, some, List, [], ◌∷◌, ◌+t◌, if◌then◌else◌,
}
use swiftmind_parking_portal.Web.Types.{User}
use swiftmind_parking_portal.Web.Markup.{
  Markup, text, ◌<>◌, element, component, button, input, each,
}
use swiftmind_parking_portal.Web.Effect.{Effect, replace, toast_error, mutate}
use swiftmind_parking_portal.Web.Client.{Call}
use swiftmind_parking_portal.Web.Http.{Outcome, ok, api_error, other_error}
use swiftmind_parking_portal.Web.Auth.{Session, login}

pub record DemoAccount : Type 0 where
  pub label : String
  pub email : String
  pub password : String

-- `DEMO_ACCOUNTS`.
unfoldable pub demo_accounts : List DemoAccount
demo_accounts =
    record { label = "Officer"; email = "officer@parkwatch.test"; password = "password123" }
    ∷ record { label = "Member"; email = "member@parkwatch.test"; password = "password123" }
    ∷ []

-- The three states of the page.
pub record Form : Type 0 where
  pub email : String
  pub password : String
  pub submitting : Bool

abbrev pub initial_form : Form
initial_form = record { email = ""; password = ""; submitting = false }

pub data Action : Type 0 where
  set_email set_password : String → Action
  use_account : DemoAccount → Action
  submit : Action

-- The handlers; `submit` is `onSubmit` up to its `await`, and its mutation is the call of `login`.
unfoldable pub handle : Action → Form → Form × List (Effect Call)
handle (set_email v) f = (record f { email = v }, [])
handle (set_password v) f = (record f { password = v }, [])
handle (use_account a) f = (record f { email = a.email; password = a.password }, [])
handle submit f = (record f { submitting = true }, mutate (Call.login f.email f.password) ∷ [])

-- What `onSubmit` does once `login` has returned or thrown.
abbrev after_login : Outcome User → List (Effect Call)
after_login (ok u) = replace "/" ∷ []
after_login (api_error status message) = toast_error message ∷ []
after_login (other_error message) = toast_error message ∷ []

-- `onSubmit` from its `await` on, with what `api` gave.
unfoldable pub submitted : Outcome User → Form → Session → Form × Session × List (Effect Call)
unfolding login
submitted o f s = let (s', r) = login o s in (record f { submitting = false }, s', after_login r)

-- The effect that leaves the page when somebody is signed in.
unfoldable pub leave : Session → Option String
leave s = elim s.user [ none ↦ none | some u ↦ if s.loading then none else some "/" ]

-- `LoginPage`.
unfoldable pub view : Form → Markup Action
unfolding demo_accounts
view f =
    component "ModeToggle"
    <> element "h1" (text "ParkWatch")
    <> element "p" (text "Parking Violation Portal")
    <> element "CardTitle" (text "Sign in")
    <> element "CardDescription" (text "Use your officer or member account.")
    <> element "Label" (text "Email")
    <> input (("type", "email") ∷ ("required", "") ∷ []) f.email set_email
    <> element "Label" (text "Password")
    <> input (("type", "password") ∷ ("required", "") ∷ []) f.password set_password
    <> button f.submitting submit (text (if f.submitting then "Signing in…" else "Sign in"))
    <> element "p" (text "Demo accounts")
    <> each (λ a. button false (use_account a) (text ("Use " +t a.label))) demo_accounts
