-- ===== src/Portal/Photo.antt =====
-- internal/violation/handler.go and the pages that show a photo: from the report of a violation to the
-- photo that the browser asks for.
mod Tests
use mathlib.Core.Path.{subst}
use text.Mathlib.TextLemmas.{append_assoc}
use swiftmind_parking_portal.Common.{
  String, ◌≡◌, ◌≢◌, refl, sym, ap, ◌∙◌, ◌⊎◌, inl, inr, Bool, true, false, Bool-cases, Option, none,
  some, Option-cases, List, [], ◌∷◌, ◌++◌, ◌=t◌, ◌+t◌, if◌then◌else◌, arith, eq_iff,
}
use swiftmind_parking_portal.Fine.Platform.{Runtime}
use swiftmind_parking_portal.Gateway.{
  Claims, Config, Request, Outcome, error, forwarded, violations, dispatch, forward, auth_required,
  header,
}
use swiftmind_parking_portal.Gateway.Segments.{words, segments, rest, words-append}
use swiftmind_parking_portal.Violation
use swiftmind_parking_portal.Violation.Uploads.{uploaded, url_of, create-photo}
use swiftmind_parking_portal.Handlers.{
  Response, json, failure, PhotoResponse, streamed, photo_failure, photo_response, get_photo, Form,
  parse_timestamp, create_response, create_violation,
}
use swiftmind_parking_portal.Handlers.Callers.{create_response-json}
use swiftmind_parking_portal.Web.Client.Routing.{with_cookie, token-with_cookie, not_empty}

-- The request for the source of an image, with the cookie.
unfoldable pub image_request : Config → (token url : String) → Request
image_request cfg token url = with_cookie cfg token "GET" (segments url)

photo_path :
    (id : String)
    → words id ≡ id ∷ []
    → segments ("/api/violations/" +t (id +t "/photo")) ≡ "api" ∷ "violations" ∷ id ∷ "photo" ∷ []
photo_path id h =
    ap segments (append_assoc "/api/violations" "/" (id +t "/photo"))
    ∙ ap rest (words-append "/api/violations" (id +t "/photo"))
    ∙ ap (λ ws. "api" ∷ "violations" ∷ ws)
        (words-append id "photo" ∙ ap (λ ws. ws ++ "photo" ∷ []) h)

photo_at :
    (cfg : Config) (token : String) (c : Claims) (id : String)
    → (token =t "") ≡ false
    → cfg.verify token ≡ some c
    → (id =t "") ≡ false
    → (let r = with_cookie cfg token "GET" ("api" ∷ "violations" ∷ id ∷ "photo" ∷ []) in
        dispatch cfg r ≡ forward violations (some c) r)
unfolding dispatch
photo_at cfg token c id n v e =
    rw
      (
        e,
        e,
        token-with_cookie cfg token c "GET" ("api" ∷ "violations" ∷ id ∷ "photo" ∷ []) n,
        auth_required,
        n,
        v,
      )
      refl

module _ (rt : Runtime) where
  -- The route `/{id}/photo` of the violation service.
  abbrev photo_route : (path : List String) → Violation.World rt → Option PhotoResponse
  photo_route (id ∷ (part ∷ [])) w = if part =t "photo" then some (get_photo rt id w) else none
  photo_route _ w = none

  unfoldable pub photo_answer : Outcome → Violation.World rt → Option PhotoResponse
  unfolding get_photo
  photo_answer (forwarded violations q) w = photo_route q.path w
  photo_answer (error status message) w = some (photo_failure status message)
  photo_answer _ w = none

  -- What the browser gets for the source of an image.
  unfoldable pub photo_call :
      Config → (token url : String) → Violation.World rt → Option PhotoResponse
  unfolding photo_answer image_request
  photo_call cfg token url w = photo_answer (dispatch cfg (image_request cfg token url)) w

  photo_call-get :
      (cfg : Config) (token : String) (c : Claims) (id : String) (w : Violation.World rt)
      → (token =t "") ≡ false
      → cfg.verify token ≡ some c
      → id ≢ ""
      → words id ≡ id ∷ []
      → photo_call cfg token ("/api/violations/" +t (id +t "/photo")) w ≡ some (get_photo rt id w)
  unfolding photo_call photo_answer image_request forward
  photo_call-get cfg token c id w n v filled one =
      ap (λ p. photo_answer (dispatch cfg (with_cookie cfg token "GET" p)) w) (photo_path id one)
      ∙ ap (λ o. photo_answer o w) (photo_at cfg token c id n v (not_empty id filled))

  failed :
      (n : _) (m : String) (v : Violation.Violation rt)
      → ◌≢◌ {A = Response (Violation.Violation rt)} (failure n m) (json 201 v)
  failed n m v h = ground arith

  -- The photo is sent: its bytes, its type, and that only the browser may keep it.
  abbrev pub IsSent : Violation.Photo → Option PhotoResponse → Type 0
  IsSent p r =
      (headers : List (String × String)) × (r ≡ some (streamed headers p.content))
      × (header "Content-Type" headers ≡ p.content_type)
      × (header "Cache-Control" headers ≡ "private, max-age=3600")

  response-IsSent : (p : Violation.Photo) → IsSent p (some (photo_response (some p)))
  unfolding photo_response
  response-IsSent p = elim (Bool-cases (p.content_type =t "")) [
    | inl e ↦ rw (e, photo_response) (_, refl, sym ((eq_iff p.content_type "").0 e), refl)
    | inr e ↦ rw (e, photo_response) (_, refl, refl, refl)
  ]

  -- What a report with the photo `o` that is answered with `v` comes to, in the tables after it.
  abbrev pub Shows :
      Config
      → (token : String) → Option Violation.Photo
      → Violation.Violation rt
      → Violation.World rt
      → Type 0
  Shows cfg token none v w =
      (v.photo_url ≡ "") × (get_photo rt v.id w ≡ photo_failure 404 "photo not found")
  Shows cfg token (some p) v w = IsSent p (photo_call cfg token v.photo_url w)

  stored-Shows :
      (cfg : Config) (token : String) (c : Claims) (u : Option Violation.Photo)
      (v : Violation.Violation rt) (w : Violation.World rt)
      → (token =t "") ≡ false
      → cfg.verify token ≡ some c
      → v.id ≢ ""
      → words v.id ≡ v.id ∷ []
      → Violation.photo rt v.id w ≡ u
      → v.photo_url ≡ url_of v.id u
      → Shows cfg token u v w
  unfolding get_photo photo_response
  stored-Shows cfg token c none v w n k filled one stored url = (url, ap photo_response stored)
  stored-Shows cfg token c (some p) v w n k filled one stored url =
      subst (IsSent p)
        (sym (
          ap (λ x. photo_call cfg token x w) url
          ∙ photo_call-get cfg token c v.id w n k filled one
          ∙ ap (λ x. some (photo_response x)) stored))
        (response-IsSent p)

  module _ (lib : Violation.Library rt) (env : Violation.Env rt) where
    -- A report that is answered with 201 has the photo that came with it.
    reported-photo :
        (form : Option (Form rt)) (o : Option Violation.Photo) (q : Request)
        (w : Violation.World rt) (v : Violation.Violation rt)
        → (create_violation rt lib env form o q w).0 ≡ json 201 v
        → (Violation.photo rt v.id (create_violation rt lib env form o q w).1 ≡ uploaded rt lib o)
          × (v.photo_url ≡ url_of v.id (uploaded rt lib o))
    unfolding create_violation
    reported-photo none o q w v h = absurd (failed 400 "invalid multipart form" v h)
    reported-photo (some f) o q w v h = elim (Option-cases (parse_timestamp rt lib f.occurred_at)) [
      | inl e ↦
          absurd (failed 400 "invalid occurred_at timestamp" v (rw (e, create_violation) at h))
      | inr (t, e) ↦
          rw (e, create_violation)
            (create-photo rt lib env _ o w v
              (create_response-json rt _ v (rw (e, create_violation) at h)))
    ]

    -- A report that is answered with 201 shows its photo: whoever is signed in and asks through the
    -- gateway for the URL of the answer gets the bytes that were uploaded, with the content type that the store keeps for theirs and
    -- for a private cache only. Where no photo came or it had no bytes, the answer has no URL, and the
    -- photo of the violation is answered with 404. The identifier that the database gave is one segment
    -- of a path.
    pub create-Shows :
        (cfg : Config) (token : String) (c : Claims) (form : Option (Form rt))
        (o : Option Violation.Photo) (q : Request) (w : Violation.World rt)
        (v : Violation.Violation rt)
        → (token =t "") ≡ false
        → cfg.verify token ≡ some c
        → v.id ≢ ""
        → words v.id ≡ v.id ∷ []
        → (create_violation rt lib env form o q w).0 ≡ json 201 v
        → Shows cfg token (uploaded rt lib o) v (create_violation rt lib env form o q w).1
    create-Shows cfg token c form o q w v n k filled one h =
        let (stored, url) = reported-photo form o q w v h in
        stored-Shows cfg token c (uploaded rt lib o) v _ n k filled one stored url
