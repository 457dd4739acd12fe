-- ===== src/Web/Page/Login/Submitting.antt =====
-- web/src/app/login/page.tsx: what a submission leaves behind.
use swiftmind_parking_portal.Common.{◌≡◌, some, List, [], ◌∷◌, arith}
use swiftmind_parking_portal.Web.Types.{User}
use swiftmind_parking_portal.Web.Markup.{Offers}
use swiftmind_parking_portal.Web.Effect.{Effect, replace, toast_error}
use swiftmind_parking_portal.Web.Http.{Outcome, ok, api_error, other_error}
use swiftmind_parking_portal.Web.Auth.{Session}
use swiftmind_parking_portal.Web.Client.{Call}
use swiftmind_parking_portal.Web.Page.Login.{Form, submit, submitted, view}

-- What the outcome of a login says of the state after the submission.
abbrev pub Settles : Outcome User → Session → Session → List (Effect Call) → Type 0
Settles (ok u) s s' es =
    (s'.user ≡ some u) × (s'.cache ≡ []) × (s'.loading ≡ s.loading) × (es ≡ replace "/" ∷ [])
Settles (api_error status message) s s' es = (s' ≡ s) × (es ≡ toast_error message ∷ [])
Settles (other_error message) s s' es = (s' ≡ s) × (es ≡ toast_error message ∷ [])

-- However the call of `login` ends, the form can be submitted again with what was typed. A success
-- signs the user in with an empty cache and goes to the dashboard; a failure leaves the session as it
-- was and shows its message.
pub submitted-Settles :
    (o : Outcome User) (f : Form) (s : Session)
    → let (f', s', es) = submitted o f s in
      Settles o s s' es
      × Offers submit (view f')
      × (f'.email ≡ f.email)
      × (f'.password ≡ f.password)
unfolding submitted view
submitted-Settles (ok u) f s = ground arith
submitted-Settles (api_error status message) f s = ground arith
submitted-Settles (other_error message) f s = ground arith
