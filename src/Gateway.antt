-- ===== src/Gateway.antt =====
-- internal/gateway/{gateway,middleware,proxy,router}.go: who may call which service, and as whom. A
-- path is the list of its segments; the names of headers are canonical, as the server reads them. The
-- verification of a token and the two functions on prefixes of texts are parameters.
mod Data
mod Routes
pub mod Callers
pub mod Access
pub mod Segments
pub mod Cookies
mod Tests
pub use Data.*
unfoldable pub use Routes.*
use swiftmind_parking_portal.Common.{
  ℕ, String, Bool, true, false, not, ◌&&◌, ◌||◌, Option, none, some, List, [], ◌∷◌, ◌++◌, find?,
  select, lookup, ◌=t◌, if◌then◌else◌,
}
use swiftmind_parking_portal.Domain.{
  role_officer, role_member, header_user_id, header_user_role, header_user_email, header_user_name,
}

abbrev pub fits : List Segment → List String → Bool
fits [] [] = true
fits [] (s ∷ ss) = false
fits (p ∷ ps) [] = false
fits (word w ∷ ps) (s ∷ ss) = s =t w && fits ps ss
fits (param ∷ ps) (s ∷ ss) = not (s =t "") && fits ps ss

-- The route that a request takes: the router's match on its method and its path.
unfoldable pub route_of : Request → Option Route
unfolding routes
route_of r = find? (λ e. e.method =t r.method && fits e.pattern r.path) routes

-- `http.Header.Del`, `Set` and `Get`.
abbrev pub del : String → List (String × String) → List (String × String)
del k hs = select (λ h. not (h.0 =t k)) hs

abbrev pub set : (k v : String) → List (String × String) → List (String × String)
set k v hs = (k, v) ∷ del k hs

abbrev pub header : String → List (String × String) → String
header k hs = elim (lookup k hs) [ none ↦ "" | some v ↦ v ]

-- `tokenFromRequest`; "" is no token.
unfoldable pub token_from_request : Config → Request → String
token_from_request cfg r =
    let bearer : String = elim (cfg.trim_prefix "Bearer " (header "Authorization" r.headers)) [
      | none ↦ ""
      | some t ↦ t
    ] in
    elim (lookup cfg.cookie_name r.cookies) [
      | none ↦ bearer
      | some c ↦ if c =t "" then bearer else c
    ]

abbrev pub has : String → List String → Bool
has k [] = false
has k (j ∷ names) = j =t k || has k names

-- The headers that a `Connection` header names.
abbrev pub connection_names : List (String × String) → List String
connection_names [] = []
connection_names (h ∷ hs) =
    if h.0 =t "Connection" then h.1 ∷ connection_names hs else connection_names hs

-- The headers that are of one connection only, for `httputil.ReverseProxy`.
abbrev pub hop_headers : List String
hop_headers =
    "Connection" ∷ "Proxy-Connection" ∷ "Keep-Alive" ∷ "Proxy-Authenticate" ∷ "Proxy-Authorization"
    ∷ "Te" ∷ "Trailer" ∷ "Transfer-Encoding" ∷ "Upgrade" ∷ []

-- What `httputil.ReverseProxy` takes out after `Director`: those headers, and what `Connection` names.
abbrev pub remove_hop_by_hop : List (String × String) → List (String × String)
remove_hop_by_hop hs =
    let gone = hop_headers ++ connection_names hs in select (λ h. not (has h.0 gone)) hs

-- The headers after `Director`.
unfoldable pub identify : Option Claims → List (String × String) → List (String × String)
identify none hs =
    del header_user_name (del header_user_email (del header_user_role (del header_user_id hs)))
identify (some c) hs = set header_user_name c.name (
    set header_user_email c.email (
      set header_user_role c.role (
        set header_user_id c.user_id (
          del header_user_name
            (del header_user_email (del header_user_role (del header_user_id hs)))))))

abbrev pub drop_two : List String → List String
drop_two (a ∷ (b ∷ ss)) = ss
drop_two ss = []

-- `proxyTo`: the first two segments are the mount point.
unfoldable pub forward : Service → Option Claims → Request → Outcome
unfolding identify
forward s claims r =
    forwarded s
      (record r { path = drop_two r.path; headers = remove_hop_by_hop (identify claims r.headers) })

-- `me`.
unfoldable pub current_user : Option Claims → Outcome
current_user none = error 401 "authentication required"
current_user (some c) = user c

-- The handler of a route; the claims are those that `authRequired` has left, if it was there.
unfoldable pub serve : Target → Option Claims → Request → Outcome
unfolding forward current_user
serve health claims r = healthy
serve login claims r = logs_in
serve logout claims r = logs_out
serve me claims r = current_user claims
serve (proxy s) claims r = forward s claims r

-- `requireRole` before a handler.
unfoldable pub require_role : String → Target → Option Claims → Request → Outcome
unfolding serve
require_role role t none r = error 403 "insufficient permissions"
require_role role t (some c) r =
    if c.role =t role then serve t (some c) r else error 403 "insufficient permissions"

-- What comes after `authRequired`.
unfoldable pub admit : Route → Claims → Request → Outcome
unfolding require_role serve
admit e c r = elim e.gate [
  | public ↦ serve e.target (some c) r
  | signed_in ↦ serve e.target (some c) r
  | only role ↦ require_role role e.target (some c) r
]

-- `authRequired`.
unfoldable pub auth_required : Config → Route → Request → Outcome
unfolding token_from_request admit
auth_required cfg e r =
    let token = token_from_request cfg r in
    if token =t "" then error 401 "authentication required" else elim (cfg.verify token) [
      | none ↦ error 401 "invalid or expired token"
      | some c ↦ admit e c r
    ]

-- A route, with the middleware before it.
unfoldable pub enter : Config → Route → Request → Outcome
unfolding auth_required serve
enter cfg e r = elim e.gate [
  | public ↦ serve e.target none r
  | signed_in ↦ auth_required cfg e r
  | only role ↦ auth_required cfg e r
]

-- `Router`, with `cors` before everything.
unfoldable pub dispatch : Config → Request → Outcome
unfolding route_of enter
dispatch cfg r =
    if r.method =t "OPTIONS"
    then no_content
    else elim (route_of r) [ none ↦ not_found | some e ↦ enter cfg e r ]
