-- ===== src/Web/Page/Login/Tests.antt =====
-- The login page at concrete inputs.
use swiftmind_parking_portal.Common.{true, false, none, []}
use swiftmind_parking_portal.Web.Auth.{Session}
use swiftmind_parking_portal.Web.Page.Login.{Form}

abbrev typed : Form
typed = record { email = "member@parkwatch.test"; password = "wrong"; submitting = true }

abbrev nobody : Session
nobody = record { user = none; loading = false; cache = [] }
