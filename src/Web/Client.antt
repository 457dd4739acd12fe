-- ===== src/Web/Client.antt =====
-- web/src/lib/{rules,invoices,violations,notifications}.ts and the calls of `api` in
-- web/src/contexts/auth-context.tsx: the request that each function makes.
pub mod Sending
pub mod Routing
mod Tests
use swiftmind_parking_portal.Common.{String, Option, none, some, [], ◌∷◌, ◌+t◌}
use swiftmind_parking_portal.Web.Http.{Body, json, json_text, form_data, RequestInit}

-- The argument of `createViolation`; a file is its name and its content.
pub record CreateViolationInput : Type 0 where
  pub plate : String
  pub violation_type : String
  pub location : String
  pub occurred_at : String
  pub photo : Option (String × String)

-- One constructor for each function that calls `api`, with its arguments. `publish_rules` carries
-- `JSON.stringify(ruleset)`.
pub data Call : Type 0 where
  get_active_rules get_rule_versions list_invoices list_notifications list_violations me logout :
      Call
  publish_rules : (body : String) → Call
  pay_invoice : (id scenario : String) → Call
  get_violation : (id : String) → Call
  create_violation : CreateViolationInput → Call
  login : (email password : String) → Call

-- The path, below "/api".
unfoldable pub path : Call → String
path get_active_rules = "/rules/active"
path get_rule_versions = "/rules"
path (publish_rules body) = "/rules"
path list_invoices = "/invoices"
path (pay_invoice id scenario) = "/invoices/" +t (id +t "/pay")
path list_notifications = "/notifications"
path list_violations = "/violations"
path (get_violation id) = "/violations/" +t id
path (create_violation i) = "/violations"
path me = "/auth/me"
path (login email password) = "/auth/login"
path logout = "/auth/logout"

abbrev no_options : RequestInit
no_options = record { method = none; headers = none; body = none; credentials = none }

abbrev post : Body → RequestInit
post body = record { method = some "POST"; headers = none; body = some body; credentials = none }

-- The `FormData` that `createViolation` builds.
abbrev pub violation_form : CreateViolationInput → Body
violation_form i =
    form_data
      (("plate", i.plate)
        ∷ ("violation_type", i.violation_type)
        ∷ ("location", i.location)
        ∷ ("occurred_at", i.occurred_at)
        ∷ [])
      i.photo

-- The options.
unfoldable pub options : Call → RequestInit
options (publish_rules body) = post (json_text body)
options (pay_invoice id scenario) = post (json (("scenario", scenario) ∷ []))
options (create_violation i) = post (violation_form i)
options (login email password) = post (json (("email", email) ∷ ("password", password) ∷ []))
options logout = record { method = some "POST"; headers = none; body = none; credentials = none }
options get_active_rules = no_options
options get_rule_versions = no_options
options list_invoices = no_options
options list_notifications = no_options
options list_violations = no_options
options me = no_options
options (get_violation id) = no_options
