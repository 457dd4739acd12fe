-- ===== src/Web/Http/Responses.antt =====
-- web/src/lib/api.ts: how a call of `api` settles.
use swiftmind_parking_portal.Common.{ℕ, ◌≤◌, String, ◌≡◌, ◌≢◌, ◌⊎◌, ◌↔◌, none, some, arith, eq_iff}
use swiftmind_parking_portal.Web.Http.{
  Json, null, str, obj, Fields, field, Js, responded, ok, api_error, other_error, settle,
}

module _ (js : Js) where
  open js use {parse, text_of}

  -- What `api` makes of a body.
  abbrev pub Means : String → Json → Type 0
  Means body v = (body ≡ "") × (v ≡ null) ⊎ (body ≢ "") × (parse body ≡ some v)

  -- A call of `api` gives the value `v` exactly when the server answered with a status from 200 to
  -- 299 and the body means `v`: it is empty and `v` is null, or it is not empty and parses to `v`.
  pub settle-ok_iff :
      (status : ℕ) (body : String) (v : Json)
      → (settle js (responded status body) ≡ ok v)
        ↔ ((200 ≤ status) × (status ≤ 299) × Means body v)
  unfolding settle
  settle-ok_iff status body v = ground (arith, eq_iff body "")

  -- The server's own message is passed on for every error answer whose body is JSON with a text in
  -- the field `error`.
  pub settle_message :
      (status : ℕ) (body message : String) (rest : Fields)
      → ¬ ((200 ≤ status) × (status ≤ 299))
      → body ≢ ""
      → parse body ≡ some (obj (field "error" (str message) rest))
      → settle js (responded status body) ≡ api_error status (text_of (str message))
  unfolding settle
  settle_message status body message rest outside filled parsed = ground (arith, eq_iff body "")

  -- A call of `api` to which the server answered fails with another error than an `ApiError` exactly
  -- when the body is not empty and does not parse, whatever the status; it is then a SyntaxError.
  pub settle-other_error_iff :
      (status : ℕ) (body message : String)
      → (settle js (responded status body) ≡ other_error message)
        ↔ ((body ≢ "") × (parse body ≡ none) × (message ≡ "SyntaxError"))
  unfolding settle
  settle-other_error_iff status body message = ground (arith, eq_iff body "")
