-- ===== src/Web/Client/Routing.antt =====
-- web/src/lib, web/next.config.ts and internal/gateway: where the requests of the client arrive. The
-- browser sends them below "/api", and Next hands them to the gateway under the same path.
use mathlib.Core.Path.{subst}
use text.Mathlib.TextLemmas.{append_assoc}
use swiftmind_parking_portal.Common.{
  String, ◌≡◌, ◌≢◌, refl, sym, ap, ◌∙◌, Option, false, none, some, List, [], ◌∷◌, ◌++◌, =t_refl,
  ◌=t◌, ◌+t◌, eq_iff, arith,
}
use swiftmind_parking_portal.Gateway.{
  Claims, Config, Request, rules, violations, payments, notifications, Outcome, user, logs_in,
  logs_out, forward, token_from_request, auth_required, require_role, dispatch,
}
use swiftmind_parking_portal.Gateway.Segments.{words, rest, segments, words-append}
use swiftmind_parking_portal.Web.Client.{
  Call, get_active_rules, get_rule_versions, list_invoices, list_notifications, list_violations, me,
  logout, publish_rules, pay_invoice, get_violation, create_violation, login, path, options,
}

-- The method that `fetch` uses.
abbrev pub method_of : Option String → String
method_of none = "GET"
method_of (some m) = m

-- A request with the session's cookie.
abbrev pub with_cookie : Config → (token method : String) → List String → Request
with_cookie cfg token method segs = record {
  method = method;
  path = segs;
  headers = [];
  cookies = (cfg.cookie_name, token) ∷ [];
}

-- The request of a call, as it arrives at the gateway.
unfoldable pub arrives : Config → (token : String) → Call → Request
arrives cfg token call =
    with_cookie cfg token (method_of (options call).method) (segments ("/api" +t path call))

-- The role that a call needs, and the form of its identifier: one segment.
abbrev pub IsServed : (role : String) → Call → Type 0
IsServed role (publish_rules body) = role ≡ "officer"
IsServed role (create_violation i) = role ≡ "officer"
IsServed role (pay_invoice id scenario) = (role ≡ "member") × (id ≢ "") × (words id ≡ id ∷ [])
IsServed role (get_violation id) = (id ≢ "") × (words id ≡ id ∷ [])
IsServed role get_active_rules = Unit
IsServed role get_rule_versions = Unit
IsServed role list_invoices = Unit
IsServed role list_notifications = Unit
IsServed role list_violations = Unit
IsServed role me = Unit
IsServed role logout = Unit
IsServed role (login email password) = Unit

-- What a call is for.
abbrev pub purpose : Claims → Call → Request → Outcome
purpose c get_active_rules r = forward rules (some c) r
purpose c get_rule_versions r = forward rules (some c) r
purpose c (publish_rules body) r = forward rules (some c) r
purpose c list_invoices r = forward payments (some c) r
purpose c (pay_invoice id scenario) r = forward payments (some c) r
purpose c list_notifications r = forward notifications (some c) r
purpose c list_violations r = forward violations (some c) r
purpose c (get_violation id) r = forward violations (some c) r
purpose c (create_violation i) r = forward violations (some c) r
purpose c me r = user c
purpose c (login email password) r = logs_in
purpose c logout r = logs_out

pub not_empty : (id : String) → id ≢ "" → (id =t "") ≡ false
not_empty id e = ground (arith, eq_iff id "")

pub get_path :
    (id : String)
    → words id ≡ id ∷ []
    → segments ("/api" +t ("/violations/" +t id)) ≡ "api" ∷ "violations" ∷ id ∷ []
get_path id h =
    ap segments
      (sym (append_assoc "/api" "/violations/" id) ∙ append_assoc "/api/violations" "/" id)
    ∙ ap rest (words-append "/api/violations" id)
    ∙ ap (λ ws. "api" ∷ "violations" ∷ ws) h

pub pay_path :
    (id : String)
    → words id ≡ id ∷ []
    → segments ("/api" +t ("/invoices/" +t (id +t "/pay"))) ≡ "api" ∷ "invoices" ∷ id ∷ "pay" ∷ []
pay_path id h =
    ap segments (
      sym (append_assoc "/api" "/invoices/" (id +t "/pay"))
      ∙ append_assoc "/api/invoices" "/" (id +t "/pay"))
    ∙ ap rest (words-append "/api/invoices" (id +t "/pay"))
    ∙ ap (λ ws. "api" ∷ "invoices" ∷ ws) (words-append id "pay" ∙ ap (λ ws. ws ++ "pay" ∷ []) h)

module _ (cfg : Config) (token : String) (c : Claims) where
  pub token-with_cookie :
      (m : String) (segs : List String)
      → (token =t "") ≡ false
      → token_from_request cfg (with_cookie cfg token m segs) ≡ token
  unfolding token_from_request
  token-with_cookie m segs n = rw (=t_refl cfg.cookie_name, n, token_from_request) refl

  get_at :
      (id : String)
      → (token =t "") ≡ false
      → cfg.verify token ≡ some c
      → (id =t "") ≡ false
      → (let r = with_cookie cfg token "GET" ("api" ∷ "violations" ∷ id ∷ []) in
          dispatch cfg r ≡ forward violations (some c) r)
  unfolding dispatch
  get_at id n v e =
      rw (e, token-with_cookie "GET" ("api" ∷ "violations" ∷ id ∷ []) n, auth_required, n, v) refl

  pay_at :
      (id : String)
      → (token =t "") ≡ false
      → cfg.verify token ≡ some c
      → (id =t "") ≡ false
      → c.role ≡ "member"
      → (let r = with_cookie cfg token "POST" ("api" ∷ "invoices" ∷ id ∷ "pay" ∷ []) in
          dispatch cfg r ≡ forward payments (some c) r)
  unfolding dispatch
  pay_at id n v e s =
      rw
        (
          e,
          token-with_cookie "POST" ("api" ∷ "invoices" ∷ id ∷ "pay" ∷ []) n,
          auth_required,
          n,
          v,
          require_role,
          s,
        )
        refl

  -- Every call of the client that is sent with a token of the role it needs reaches what it is for: the
  -- service that answers it, with the token's claims, or the gateway's own handler. The identifiers in
  -- the paths are not empty and have no slash.
  pub dispatch-arrives :
      (call : Call)
      → (token =t "") ≡ false
      → cfg.verify token ≡ some c
      → IsServed c.role call
      → dispatch cfg (arrives cfg token call) ≡ purpose c call (arrives cfg token call)
  unfolding dispatch arrives path options
  dispatch-arrives get_active_rules n v s =
      rw (token-with_cookie "GET" ("api" ∷ "rules" ∷ "active" ∷ []) n, auth_required, n, v) refl
  dispatch-arrives get_rule_versions n v s =
      rw (token-with_cookie "GET" ("api" ∷ "rules" ∷ []) n, auth_required, n, v) refl
  dispatch-arrives list_invoices n v s =
      rw (token-with_cookie "GET" ("api" ∷ "invoices" ∷ []) n, auth_required, n, v) refl
  dispatch-arrives list_notifications n v s =
      rw (token-with_cookie "GET" ("api" ∷ "notifications" ∷ []) n, auth_required, n, v) refl
  dispatch-arrives list_violations n v s =
      rw (token-with_cookie "GET" ("api" ∷ "violations" ∷ []) n, auth_required, n, v) refl
  dispatch-arrives me n v s =
      rw (token-with_cookie "GET" ("api" ∷ "auth" ∷ "me" ∷ []) n, auth_required, n, v) refl
  dispatch-arrives logout n v s = refl
  dispatch-arrives (login email password) n v s = refl
  dispatch-arrives (publish_rules body) n v s =
      rw (token-with_cookie "POST" ("api" ∷ "rules" ∷ []) n, auth_required, n, v, require_role, s)
        refl
  dispatch-arrives (create_violation i) n v s =
      rw
        (
          token-with_cookie "POST" ("api" ∷ "violations" ∷ []) n,
          auth_required,
          n,
          v,
          require_role,
          s,
        )
        refl
  dispatch-arrives (get_violation id) n v (e, h) =
      subst
        (λ segs.
          let r = with_cookie cfg token "GET" segs in
          dispatch cfg r ≡ forward violations (some c) r)
        (sym (get_path id h)) (get_at id n v (not_empty id e))
  dispatch-arrives (pay_invoice id scenario) n v (m, e, h) =
      subst
        (λ segs.
          let r = with_cookie cfg token "POST" segs in dispatch cfg r ≡ forward payments (some c) r)
        (sym (pay_path id h)) (pay_at id n v (not_empty id e) m)
