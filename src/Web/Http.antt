-- ===== src/Web/Http.antt =====
-- web/src/lib/api.ts: the fetch wrapper. `fetch`, `JSON.parse` and `String(value)` are JavaScript's:
-- what `fetch` gave is an argument, the other two are the record `Js`.
pub mod Requests
pub mod Responses
mod Tests
use Prim.Native.Nat.{ℕ, ◌≤◌}
use swiftmind_parking_portal.Common.{
  String, Bool, true, false, ◌&&◌, Option, none, some, List, [], ◌∷◌, lookup, insert, ◌=t◌, ◌+t◌,
  if◌then◌else◌, leb,
}

mutual
  pub data Json : Type 0 where
    null : Json
    bool : Bool → Json
    -- a number, by its text
    num : String → Json
    str : String → Json
    arr : Items → Json
    obj : Fields → Json

  pub data Items : Type 0 where
    nil : Items
    cons : Json → Items → Items

  pub data Fields : Type 0 where
    end : Fields
    field : String → Json → Fields → Fields

-- `o[key]`, with `none` for `undefined`.
abbrev pub property : String → Fields → Option Json
property key end = none
property key (field k v rest) = if k =t key then some v else property key rest

pub record Js : Type 0 where
  -- `JSON.parse`; `none` is a SyntaxError
  pub parse : String → Option Json
  -- the text of a value, as `Error` takes it
  pub text_of : Json → String
  -- a number in a template literal
  pub show_status : ℕ → String

pub data Body : Type 0 where
  -- `JSON.stringify` of an object with these fields
  json : List (String × String) → Body
  -- a value stringified whole, by its text
  json_text : String → Body
  -- a `FormData` with its text parts, and its file part if there is one
  form_data : List (String × String) → Option (String × String) → Body

-- `RequestInit`; `none` is a key that is absent.
pub record RequestInit : Type 0 where
  pub method : Option String
  pub headers : Option (List (String × String))
  pub body : Option Body
  pub credentials : Option String

-- `options.body instanceof FormData`
abbrev pub is_form_data : Option Body → Bool
is_form_data (some (form_data parts file)) = true
is_form_data _ = false

-- `{ ...a, ...b }` on headers.
abbrev pub spread : List (String × String) → List (String × String) → List (String × String)
spread a [] = a
spread a ((k, v) ∷ b) = spread (insert k v a) b

-- `{ key: a, ...options }` at one key.
abbrev pub own_or {ℓ} : {A : Type ℓ} → Option A → Option A → Option A
own_or none a = a
own_or (some b) a = some b

abbrev pub headers_or_empty : Option (List (String × String)) → List (String × String)
headers_or_empty none = []
headers_or_empty (some h) = h

-- The second argument of `fetch` in `api`.
unfoldable pub build_init : RequestInit → RequestInit
build_init options =
    let default =
      if is_form_data options.body then [] else ("Content-Type", "application/json") ∷ [] in
    record {
      method = options.method;
      headers = own_or options.headers (some (spread default (headers_or_empty options.headers)));
      body = options.body;
      credentials = own_or options.credentials (some "include");
    }

-- What `fetch` and `res.text()` gave.
pub data Fetched : Type 0 where
  failed : (message : String) → Fetched
  responded : (status : ℕ) (body : String) → Fetched

-- How a promise of `api` settles: a value, an `ApiError`, or another `Error`.
pub data Outcome (A : Type 0) : Type 0 where
  ok : A → Outcome A
  api_error : (status : ℕ) (message : String) → Outcome A
  other_error : (message : String) → Outcome A

-- `res.ok`
abbrev pub is_ok_status : ℕ → Bool
is_ok_status status = leb 200 status && leb status 299

module _ (js : Js) where
  open js use {parse, text_of, show_status}

  -- `text ? JSON.parse(text) : null`
  unfoldable pub read_body : String → Option Json
  read_body body = if body =t "" then some null else parse body

  abbrev pub default_message : ℕ → String
  default_message status = "Request failed (" +t (show_status status +t ")")

  -- The message of the `ApiError`.
  unfoldable pub error_message : ℕ → Json → String
  error_message status (obj fields) = elim (property "error" fields) [
    | some null ↦ default_message status
    | some v ↦ text_of v
    | none ↦ default_message status
  ]
  error_message status _ = default_message status

  -- `api` after `fetch` has settled.
  unfoldable pub settle : Fetched → Outcome Json
  unfolding read_body error_message
  settle (failed message) = other_error message
  settle (responded status body) = elim (read_body body) [
    | none ↦ other_error "SyntaxError"
    | some v ↦ if is_ok_status status then ok v else api_error status (error_message status v)
  ]
