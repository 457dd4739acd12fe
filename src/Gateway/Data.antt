-- ===== src/Gateway/Data.antt =====
-- internal/gateway/{gateway,middleware,router}.go and pkg/jwt/jwt.go: requests, claims, routes and what
-- becomes of a request.
use swiftmind_parking_portal.Common.{ℕ, String, Option, List}

-- `jwt.Claims`, without the registered ones.
pub record Claims : Type 0 where
  pub user_id : String
  pub email : String
  pub name : String
  pub role : String

-- A request, as the handlers see it. A `Connection` header that lists several names stands as one entry
-- for each of them.
pub record Request : Type 0 where
  pub method : String
  pub path : List String
  pub headers : List (String × String)
  pub cookies : List (String × String)

pub data Service : Type 0 where
  rules violations payments notifications : Service

-- What stands behind a route.
pub data Target : Type 0 where
  health login logout me : Target
  proxy : Service → Target

-- What a route asks of the caller: nothing, a token, or a token of the role.
pub data Gate : Type 0 where
  public signed_in : Gate
  only : String → Gate

-- A segment of a pattern: a word, or a parameter such as `{id}`.
pub data Segment : Type 0 where
  word : String → Segment
  param : Segment

pub record Route : Type 0 where
  pub method : String
  pub pattern : List Segment
  pub gate : Gate
  pub target : Target

pub record Config : Type 0 where
  pub cookie_name : String
  -- `strings.TrimPrefix`, where `strings.HasPrefix` holds
  pub trim_prefix : (prefix s : String) → Option String
  -- `jwt.Manager.Verify`
  pub verify : String → Option Claims

-- What the gateway does with a request. The handlers for logging in and out, which call the identity
-- service and write the cookie, are named.
pub data Outcome : Type 0 where
  -- `httpx.Error`
  error : (status : ℕ) → (message : String) → Outcome
  -- the answer to a preflight request
  no_content : Outcome
  -- no route for the path, or none for the method
  not_found : Outcome
  healthy logs_in logs_out : Outcome
  user : Claims → Outcome
  -- the request that reaches a service, with its path below the mount point
  forwarded : Service → Request → Outcome
