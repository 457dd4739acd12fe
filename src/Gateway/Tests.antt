-- ===== src/Gateway/Tests.antt =====
-- The gateway at concrete requests.
use swiftmind_parking_portal.Common.{◌≡◌, refl, none, some, [], ◌∷◌, ◌=t◌, if◌then◌else◌}
use swiftmind_parking_portal.Gateway.{
  Claims, Request, Config, error, forwarded, violations, token_from_request, drop_two,
  connection_names, dispatch,
}
use swiftmind_parking_portal.Gateway.Callers.{IsCaller}
use swiftmind_parking_portal.Gateway.Access.{IsAllowed, dispatch-forwarded}

abbrev officer : Claims
officer = record {
  user_id = "1";
  email = "officer@parkwatch.test";
  name = "Olivia";
  role = "officer";
}

abbrev config : Config
config = record {
  cookie_name = "access_token";
  trim_prefix = λ p s. none;
  verify = λ t. if t =t "good" then some officer else none;
}

-- An officer who claims to be somebody else.
abbrev posted : Request
posted = record {
  method = "POST";
  path = "api" ∷ "violations" ∷ [];
  headers = ("X-User-Email", "boss@parkwatch.test") ∷ ("X-User-Role", "admin") ∷ [];
  cookies = ("access_token", "good") ∷ [];
}

abbrev received : Request
received = record {
  method = "POST";
  path = [];
  headers =
      ("X-User-Name", "Olivia")
      ∷ ("X-User-Email", "officer@parkwatch.test")
      ∷ ("X-User-Role", "officer")
      ∷ ("X-User-Id", "1")
      ∷ [];
  cookies = ("access_token", "good") ∷ [];
}

dispatch-posted : dispatch config posted ≡ forwarded violations received
unfolding dispatch
dispatch-posted = refl

-- A `Connection` header that names an identity header takes it out.
dispatch_stripped :
    dispatch config (record posted {
      headers = ("Connection", "X-User-Email") ∷ ("Connection", "X-User-Role") ∷ [];
    })
    ≡ forwarded violations
        (record received { headers = ("X-User-Name", "Olivia") ∷ ("X-User-Id", "1") ∷ [] })
unfolding dispatch
dispatch_stripped = refl

-- The mount points also take a path that ends in a slash.
dispatch_slash :
    dispatch config (record posted { method = "GET"; path = "api" ∷ "violations" ∷ "" ∷ [] })
    ≡ forwarded violations (record received { method = "GET"; path = "" ∷ [] })
unfolding dispatch
dispatch_slash = refl

dispatch_unpaid :
    dispatch config (record posted { path = "api" ∷ "invoices" ∷ "inv-1" ∷ "pay" ∷ [] })
    ≡ error 403 "insufficient permissions"
unfolding dispatch
dispatch_unpaid = refl

dispatch-forwarded_example :
    (c : Claims) × (config.verify (token_from_request config posted) ≡ some c)
    × IsCaller c (connection_names posted.headers) received.headers
    × (received.path ≡ drop_two posted.path)
    × IsAllowed violations posted.method c.role
dispatch-forwarded_example = dispatch-forwarded config posted violations received dispatch-posted
