-- ===== src/Web/Http/Requests.antt =====
-- web/src/lib/api.ts: the request that `api` hands to `fetch`.
use swiftmind_parking_portal.Common.{
  Option, refl, String, ◌≡◌, true, false, none, some, List, [], ◌∷◌, ◌⊎◌, arith,
}
use swiftmind_parking_portal.Web.Http.{RequestInit, build_init, is_form_data}

-- What `api` sends for the headers that the caller gave.
abbrev pub SentHeaders :
    RequestInit → Option (List (String × String)) → Option (List (String × String)) → Type 0
SentHeaders options (some own) sent = sent ≡ some own
SentHeaders options none sent =
    (is_form_data options.body ≡ true) × (sent ≡ some [])
    ⊎ (is_form_data options.body ≡ false)
      × (sent ≡ some (("Content-Type", "application/json") ∷ []))

-- What `api` sends for the credentials that the caller gave.
abbrev pub SentCredentials : Option String → Option String → Type 0
SentCredentials none sent = sent ≡ some "include"
SentCredentials (some own) sent = sent ≡ some own

sent_headers :
    (options : RequestInit) (headers : Option (List (String × String)))
    → options.headers ≡ headers
    → SentHeaders options headers (build_init options).headers
unfolding build_init
sent_headers options none h = ground arith
sent_headers options (some own) h = ground arith

sent_credentials :
    (options : RequestInit) (credentials : Option String)
    → options.credentials ≡ credentials
    → SentCredentials credentials (build_init options).credentials
unfolding build_init
sent_credentials options none h = ground arith
sent_credentials options (some own) h = ground arith

-- The method and the body go as they are given, and the cookies unless the caller gives credentials of
-- its own. Without headers of the caller, a `FormData` body goes without a Content-Type and any
-- other request with that of JSON. Headers of the caller are sent alone, whatever the body is: the
-- merged headers, with the Content-Type of JSON, are lost.
pub build_init_lem :
    (options : RequestInit)
    → SentHeaders options options.headers (build_init options).headers
      × SentCredentials options.credentials (build_init options).credentials
      × ((build_init options).method ≡ options.method)
      × ((build_init options).body ≡ options.body)
unfolding build_init
build_init_lem options = (
  sent_headers options options.headers refl,
  sent_credentials options options.credentials refl,
  refl,
  refl,
)
