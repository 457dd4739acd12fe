-- ===== src/Gateway/Access.antt =====
-- internal/gateway/{middleware,proxy,router}.go: what reaches a service.
use swiftmind_parking_portal.Common.{
  ℕ, zero, suc, ◌∷◌, [], refl, String, ◌≡◌, sym, ap, ◌⊎◌, inl, inr, Bool, true, Bool-cases, ◌&&◌,
  Option, none, some, Option-cases, List, All, find?-All, ◌=t◌, eq_iff, arith,
}
use swiftmind_parking_portal.Gateway.{
  Route, Claims, Request, Service, rules, violations, payments, notifications, Target, health,
  login, logout, me, proxy, Gate, public, signed_in, only, Segment, Config, error, no_content,
  not_found, forwarded, routes, route_of, token_from_request, identify, drop_two, forward,
  connection_names, remove_hop_by_hop, current_user, fits, serve, require_role, admit,
  auth_required, enter, dispatch,
}
use swiftmind_parking_portal.Gateway.Callers.{IsCaller, identify-IsCaller}

-- What the gateway lets a role do with a service.
abbrev pub IsAllowed : Service → (method role : String) → Type 0
IsAllowed rules method role = (method ≡ "GET") ⊎ (method ≡ "POST") × (role ≡ "officer")
IsAllowed violations method role = (method ≡ "GET") ⊎ (method ≡ "POST") × (role ≡ "officer")
IsAllowed payments method role = (method ≡ "GET") ⊎ (method ≡ "POST") × (role ≡ "member")
IsAllowed notifications method role = (method ≡ "GET") ⊎ (method ≡ "POST") × ⊥

IsAllowed-get : (s : Service) (method role : String) → method ≡ "GET" → IsAllowed s method role
IsAllowed-get rules method role h = inl h
IsAllowed-get violations method role h = inl h
IsAllowed-get payments method role h = inl h
IsAllowed-get notifications method role h = inl h

-- A route to a service has a gate that is narrow enough.
abbrev IsGuarded : (method : String) → Gate → Target → Type 0
IsGuarded method public (proxy s) = ⊥
IsGuarded method signed_in (proxy s) = method ≡ "GET"
IsGuarded method (only role) (proxy s) = IsAllowed s method role
IsGuarded method g health = Unit
IsGuarded method g login = Unit
IsGuarded method g logout = Unit
IsGuarded method g me = Unit

abbrev drop_routes : ℕ → List Route → List Route
drop_routes zero es = es
drop_routes (suc n) [] = []
drop_routes (suc n) (e ∷ es) = drop_routes n es

-- The routes of the mount points with a slash.
mounted-IsGuarded : All (λ e. IsGuarded e.method e.gate e.target) (drop_routes 14 routes)
unfolding routes
mounted-IsGuarded = (refl, (inr (refl, refl), (refl, (inr (refl, refl), (refl, tt)))))

routes-IsGuarded : All (λ e. IsGuarded e.method e.gate e.target) routes
unfolding routes
routes-IsGuarded = (
  tt,
  (
    tt,
    (
      tt,
      (
        tt,
        (
          refl,
          (
            refl,
            (
              inr (refl, refl),
              (
                refl,
                (
                  refl,
                  (refl, (inr (refl, refl), (refl, (inr (refl, refl), (refl, mounted-IsGuarded))))),
                ),
              ),
            ),
          ),
        ),
      ),
    ),
  ),
)

-- The request that is forwarded with some claims.
abbrev pub forwarded_request : Option Claims → Request → Request
forwarded_request claims r = record r {
  path = drop_two r.path;
  headers = remove_hop_by_hop (identify claims r.headers);
}

forwarded-injective :
    (s t : Service) (q q' : Request) → forwarded s q ≡ forwarded t q' → (s ≡ t) × (q ≡ q')
forwarded-injective s t q q' h = ground arith

serve-forwarded :
    (t : Target) (claims : Option Claims) (r : Request) (s : Service) (q : Request)
    → serve t claims r ≡ forwarded s q
    → (t ≡ proxy s) × (q ≡ forwarded_request claims r)
unfolding serve forward current_user
serve-forwarded health claims r s q h = ground arith
serve-forwarded login claims r s q h = ground arith
serve-forwarded logout claims r s q h = ground arith
serve-forwarded me none r s q h = ground arith
serve-forwarded me (some c) r s q h = ground arith
serve-forwarded (proxy t) claims r s q h =
    let (e, f) = forwarded-injective t s (forwarded_request claims r) q h in (ap proxy e, sym f)

error_forwarded :
    (s : Service) (q : Request) → error 403 "insufficient permissions" ≡ forwarded s q → ⊥
error_forwarded s q h = ground arith

admit-forwarded :
    (m : String) (p : List Segment) (g : Gate) (t : Target) (c : Claims) (r : Request) (s : Service)
    (q : Request)
    → admit (record { method = m; pattern = p; gate = g; target = t }) c r ≡ forwarded s q
    → IsGuarded m g t
    → (q ≡ forwarded_request (some c) r) × IsAllowed s m c.role
unfolding admit require_role
admit-forwarded m p public t c r s q h k =
    let (e, f) = serve-forwarded t (some c) r s q h in absurd (rw e at k)
admit-forwarded m p signed_in t c r s q h k =
    let (e, f) = serve-forwarded t (some c) r s q h in (f, IsAllowed-get s m c.role (rw e at k))
admit-forwarded m p (only role) t c r s q h k = elim (Bool-cases (c.role =t role)) [
  | inl e ↦
      let (d, f) = serve-forwarded t (some c) r s q (rw (e, require_role) at h) in
      (f, rw ((eq_iff c.role role).0 e) (rw d at k))
  | inr e ↦ absurd (error_forwarded s q (rw (e, require_role) at h))
]

-- A verified token stands behind what is forwarded.
abbrev IsVerified : Config → Request → Service → Request → String → Type 0
IsVerified cfg r s q m =
    (c : Claims) × (cfg.verify (token_from_request cfg r) ≡ some c)
    × (q ≡ forwarded_request (some c) r)
    × IsAllowed s m c.role

refused : (s : Service) (q : Request) (m : String) → error 401 m ≡ forwarded s q → ⊥
refused s q m h = ground arith

preflight : (s : Service) (q : Request) → no_content ≡ forwarded s q → ⊥
preflight s q h = ground arith

unknown : (s : Service) (q : Request) → not_found ≡ forwarded s q → ⊥
unknown s q h = ground arith

auth_required-forwarded :
    (cfg : Config) (m : String) (p : List Segment) (g : Gate) (t : Target) (r : Request)
    (s : Service) (q : Request)
    → auth_required cfg (record { method = m; pattern = p; gate = g; target = t }) r ≡ forwarded s q
    → IsGuarded m g t
    → IsVerified cfg r s q m
unfolding auth_required
auth_required-forwarded cfg m p g t r s q h k =
    let token = token_from_request cfg r in
    elim (Bool-cases (token =t "")) [
      | inl e ↦ absurd (refused s q "authentication required" (rw (e, auth_required) at h))
      | inr e ↦ elim (Option-cases (cfg.verify token)) [
        | inl f ↦ absurd (refused s q "invalid or expired token" (rw (e, f, auth_required) at h))
        | inr (c, f) ↦
            let (a, b) = admit-forwarded m p g t c r s q (rw (e, f, auth_required) at h) k in
            (c, f, a, b)
      ]
    ]

enter-forwarded :
    (cfg : Config) (m : String) (p : List Segment) (g : Gate) (t : Target) (r : Request)
    (s : Service) (q : Request)
    → enter cfg (record { method = m; pattern = p; gate = g; target = t }) r ≡ forwarded s q
    → IsGuarded m g t
    → IsVerified cfg r s q m
unfolding enter
enter-forwarded cfg m p public t r s q h k =
    let (e, f) = serve-forwarded t none r s q h in absurd (rw e at k)
enter-forwarded cfg m p signed_in t r s q h k =
    auth_required-forwarded cfg m p signed_in t r s q h k
enter-forwarded cfg m p (only role) t r s q h k =
    auth_required-forwarded cfg m p (only role) t r s q h k

and_left : (s t : String) (b : Bool) → (s =t t && b) ≡ true → s ≡ t
and_left s t b h = ground (arith, eq_iff s t)

dispatch-IsVerified :
    (cfg : Config) (r : Request) (s : Service) (q : Request)
    → dispatch cfg r ≡ forwarded s q
    → IsVerified cfg r s q r.method
unfolding dispatch route_of
dispatch-IsVerified cfg r s q h = elim (Bool-cases (r.method =t "OPTIONS")) [
  | inl e ↦ absurd (preflight s q (rw (e, dispatch) at h))
  | inr e ↦ elim (Option-cases (route_of r)) [
    | inl f ↦ absurd (unknown s q (rw (e, f, dispatch) at h))
    | inr (route, f) ↦
        let (matches, guarded) =
          find?-All (λ x. IsGuarded x.method x.gate x.target)
            (λ x. x.method =t r.method && fits x.pattern r.path) routes route f routes-IsGuarded in
        let same_method : route.method ≡ r.method = and_left route.method r.method _ matches in
        rw same_method at (
          enter-forwarded cfg route.method route.pattern route.gate route.target r s q
            (rw (e, f, dispatch) at h) guarded)
  ]
]

-- What reaches a service comes from a request with a token that verifies. The service gets the request
-- with the mount point off its path and, in the place of any identity headers of the client, those of
-- the token's claims, except that an identity header which the client names in a `Connection` header
-- is missing. Reading is open to every role; only officers post rules and violations, only members
-- post payments, and nobody posts notifications.
pub dispatch-forwarded :
    (cfg : Config) (r : Request) (s : Service) (q : Request)
    → dispatch cfg r ≡ forwarded s q
    → (c : Claims) × (cfg.verify (token_from_request cfg r) ≡ some c)
      × IsCaller c (connection_names r.headers) q.headers
      × (q.path ≡ drop_two r.path)
      × IsAllowed s r.method c.role
dispatch-forwarded cfg r s q h =
    let (c, v, same, allowed) = dispatch-IsVerified cfg r s q h in
    (c, v, rw same (identify-IsCaller c r.headers), ap (λ x. x.path) same, allowed)
