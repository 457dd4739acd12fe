-- ===== src/Web/Http/Tests.antt =====
-- The fetch wrapper at concrete inputs.
use swiftmind_parking_portal.Common.{◌≡◌, refl, none, some, [], ◌∷◌, ◌=t◌, if◌then◌else◌}
use swiftmind_parking_portal.Web.Http.{
  Json, str, obj, field, end, Js, json, RequestInit, responded, api_error, build_init, settle,
}

-- The answer of a gateway that rejects a token.
abbrev rejection : Json
rejection = obj (field "error" (str "invalid token") end)

-- A JSON reader that knows one document.
abbrev sample_js : Js
sample_js = record {
  parse = λ s. if s =t "{\"error\":\"invalid token\"}" then some rejection else none;
  text_of = λ v. "invalid token";
  show_status = λ n. "401";
}

abbrev own : RequestInit
own = record {
  method = some "POST";
  headers = some (("X-Trace", "1") ∷ []);
  body = some (json (("email", "a@b.c") ∷ []));
  credentials = none;
}

settle-rejected :
    settle sample_js (responded 401 "{\"error\":\"invalid token\"}") ≡ api_error 401 "invalid token"
unfolding settle
settle-rejected = refl

-- The headers of a caller replace the merged ones.
build_init-own : (build_init own).headers ≡ some (("X-Trace", "1") ∷ [])
unfolding build_init
build_init-own = refl
