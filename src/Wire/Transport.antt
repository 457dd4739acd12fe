-- ===== src/Wire/Transport.antt =====
-- pkg/httpx/httpx.go and web/src/lib/api.ts: how the answer of a handler settles the promise of `api`.
use swiftmind_parking_portal.Common.{String, ◌≡◌, refl, true, false, ◌=t◌, some}
use swiftmind_parking_portal.Handlers.{Response, json, failure}
use swiftmind_parking_portal.Web.Http.{
  Json, str, Js, Outcome, ok, api_error, settle, is_ok_status, read_body, error_message,
}
use swiftmind_parking_portal.Wire.{sent, singleton}

-- What JavaScript reads is what Go wrote.
pub record Carries (js : Js) (write : Json → String) (v : Json) : Type 0 where
  pub parses : js.parse (write v) ≡ some v
  pub not_empty : (write v =t "") ≡ false

-- A value comes with a status of success, an error with another one, and both are carried.
abbrev pub IsCarried : {A : Type 0} → Js → (Json → String) → (A → Json) → Response A → Type 0
IsCarried js write encode (json status v) =
    (is_ok_status status ≡ true) × Carries js write (encode v)
IsCarried js write encode (failure status message) =
    (is_ok_status status ≡ false)
    × Carries js write (singleton "error" (str message))
    × (js.text_of (str message) ≡ message)

-- The value that was answered, or the error with its status and its message.
abbrev pub meaning : {A : Type 0} → (A → Json) → Response A → Outcome Json
meaning encode (json status v) = ok (encode v)
meaning encode (failure status message) = api_error status message

read_body-write :
    (js : Js) (write : Json → String) (v : Json)
    → Carries js write v
    → read_body js (write v) ≡ some v
unfolding read_body
read_body-write js write v c = rw (c.not_empty, read_body) c.parses

-- What a handler answers is what the promise of `api` gives: the value that was encoded, for a
-- status from 200 to 299, and an `ApiError` with the status and the message of `httpx.Error` for
-- any other, provided that JavaScript parses the body to what Go wrote and that the body is not
-- empty.
pub settle-sent :
    {A : Type 0} (js : Js) (write : Json → String) (encode : A → Json) (r : Response A)
    → IsCarried js write encode r
    → settle js (sent write encode r) ≡ meaning encode r
unfolding settle sent error_message
settle-sent js write encode (json status v) (s, c) =
    rw (read_body-write js write (encode v) c, s, settle) refl
settle-sent js write encode (failure status message) (s, c, t) =
    rw (read_body-write js write (singleton "error" (str message)) c, s, t, settle) refl
