-- ===== src/Violation/Uploads.antt =====
-- internal/violation/service.go, `Create` and `Photo`: what becomes of the photo of a report.
use Prim.Native.String.{count}
use text.Mathlib.TextLemmas.{length-append}
use mathlib.Core.Path.{subst}
use mathlib.Core.Option.{some-injective}
use swiftmind_parking_portal.Common.{
  ℕ, ◌+◌, String, ◌≡◌, ◌≢◌, refl, sym, ap, ◌∙◌, inl, inr, Bool, true, false, Bool-cases, Option,
  none, some, Option-cases, List, ◌∷◌, lookup, ltb, ◌=t◌, ◌+t◌, =t_refl, if◌then◌else◌, ◌||◌, arith,
  eq_iff,
}
use swiftmind_parking_portal.Fine.{Breakdown, calculate}
use swiftmind_parking_portal.Fine.Platform.{Runtime}
use swiftmind_parking_portal.Violation.{
  Photo, Library, CreateInput, ActiveRuleset, Violation, World, Env, Error, Answer, ok, err,
  attach_photo_url, stored, photo, owner_of_plate, publish_created, store_photo, row_of, persist,
  invalid_input, internal, fine_input, issue, price, is_valid_input, create,
}

-- Where the answer says that a photo is.
abbrev pub url_of : (id : String) → Option Photo → String
url_of id none = ""
url_of id (some p) = "/api/violations/" +t (id +t "/photo")

longer : (n : ℕ) → 11 + n ≢ 0
longer n h = omega arith

key_nonempty : (uuid : String) → ("violations/" +t uuid =t "") ≡ false
key_nonempty uuid = elim (Bool-cases ("violations/" +t uuid =t "")) [
  | inl e ↦
      let same = (eq_iff ("violations/" +t uuid) "").0 e in
      absurd (longer (count uuid) (sym (length-append "violations/" uuid) ∙ ap count same))
  | inr e ↦ e
]

module _ (rt : Runtime) where
  -- The object that a photo with bytes becomes in the store.
  abbrev pub uploaded : Library rt → Option Photo → Option Photo
  uploaded lib none = none
  uploaded lib (some p) =
      if ltb 0 p.size
      then some (record p { content_type = lib.stored_type p.content_type })
      else none

  -- If a violation is answered then its photo is the object.
  abbrev pub IsServed : Option Photo → Answer rt × World rt → Type 0
  IsServed o r =
      (v : Violation rt) → r.0 ≡ ok v → (photo rt v.id r.1 ≡ o) × (v.photo_url ≡ url_of v.id o)

  err-IsServed : (o : Option Photo) (e : Error) (w : World rt) → IsServed o (err e, w)
  err-IsServed o e w v h = ground arith

  -- The key goes with what was uploaded.
  abbrev pub IsKeyOf : Option Photo → (key : String) → List (String × Photo) → Type 0
  IsKeyOf none key photos = key ≡ ""
  IsKeyOf (some p) key photos = (key =t "" ≡ false) × (lookup key photos ≡ some p)

  pub no_key : (x : String × World rt) → ◌≢◌ {A = Option (String × World rt)} none (some x)
  no_key x h = ground arith

  pub store_photo-IsKeyOf :
      (lib : Library rt) (env : Env rt) (o : Option Photo) (w w' : World rt) (key : String)
      → store_photo rt lib env o w ≡ some (key, w')
      → IsKeyOf (uploaded lib o) key w'.photos
  unfolding store_photo
  store_photo-IsKeyOf lib env none w w' key h =
      sym (ap (λ x. x.0) (some-injective ("", w) (key, w') h))
  store_photo-IsKeyOf lib env (some p) w w' key h = elim (Bool-cases (ltb 0 p.size)) [
    | inr e ↦
        rw e (sym (ap (λ x. x.0) (some-injective ("", w) (key, w') (rw (e, store_photo) at h))))
    | inl e ↦ elim (Bool-cases env.put_fails) [
      | inl f ↦ absurd (no_key (key, w') (rw (e, f, store_photo) at h))
      | inr f ↦
          let own = "violations/" +t (env.photo_uuid +t lib.ext p.filename) in
          let object = record p { content_type = lib.stored_type p.content_type } in
          let stores = record w { photos = (own, object) ∷ w.photos } in
          let same = some-injective (own, stores) (key, w') (rw (e, f, store_photo) at h) in
          let held : lookup own stores.photos ≡ some object = rw (=t_refl own) refl in
          rw e (subst (λ x. IsKeyOf (some object) x.0 x.1.photos) same (key_nonempty _, held))
    ]
  ]

  -- A row that is stored with the key of a photo answers with its URL, and the photo is found by it.
  row-photo :
      (o : Option Photo) (v : Violation rt) (w : World rt) (vs : List (Violation rt))
      → IsKeyOf o v.photo_object w.photos
      → w.violations ≡ v ∷ vs
      → (photo rt v.id w ≡ o)
  unfolding photo stored
  row-photo none v w vs k h = rw (h, photo, stored, =t_refl v.id, k) refl
  row-photo (some p) v w vs (e, k) h = rw (h, photo, stored, =t_refl v.id, e) k

  row-url :
      (o : Option Photo) (v : Violation rt) (w : World rt)
      → v.photo_url ≡ ""
      → IsKeyOf o v.photo_object w.photos
      → (attach_photo_url rt v).photo_url ≡ url_of v.id o
  unfolding attach_photo_url
  row-url none v w u k = rw (k, attach_photo_url) u
  row-url (some p) v w u (e, k) = rw (e, attach_photo_url) refl

  ok-injective : (u v : Violation rt) → ◌≡◌ {A = Answer rt} (ok u) (ok v) → u ≡ v
  ok-injective u v h = cc

  attach_photo_url-id : (v : Violation rt) → (attach_photo_url rt v).id ≡ v.id
  unfolding attach_photo_url
  attach_photo_url-id v = ground arith

  row-IsServed :
      (o : Option Photo) (v : Violation rt) (w : World rt) (vs : List (Violation rt))
      → v.photo_url ≡ ""
      → IsKeyOf o v.photo_object w.photos
      → w.violations ≡ v ∷ vs
      → IsServed o (ok (attach_photo_url rt v), w)
  row-IsServed o v w vs u k h x same =
      subst (λ y. (photo rt y.id w ≡ o) × (y.photo_url ≡ url_of y.id o))
        (ok-injective (attach_photo_url rt v) x same)
        (subst (λ i. (photo rt i w ≡ o) × ((attach_photo_url rt v).photo_url ≡ url_of i o))
          (sym (attach_photo_url-id v)) (row-photo o v w vs k h, row-url o v w u k))

  published-IsServed :
      (o : Option Photo) (v : Violation rt) (w : World rt) (vs : List (Violation rt))
      (publishes : Bool)
      → v.photo_url ≡ ""
      → IsKeyOf o v.photo_object w.photos
      → w.violations ≡ v ∷ vs
      → IsServed o (ok (attach_photo_url rt v), publish_created rt publishes v w)
  unfolding publish_created
  published-IsServed o v w vs true u k h = row-IsServed o v (publish_created rt true v w) vs u k h
  published-IsServed o v w vs false u k h = row-IsServed o v w vs u k h

  persist-IsServed :
      (env : Env rt) (i : CreateInput rt) (o : Option Photo) (active : ActiveRuleset rt)
      (b : Breakdown rt.Float) (key : String) (w : World rt)
      → IsKeyOf o key w.photos
      → IsServed o (persist rt env i active b key w)
  unfolding persist
  persist-IsServed env i o active b key w k =
      elim (Bool-cases (env.owner_fails || env.insert_fails)) [
        | inl e ↦ rw (e, persist) (err-IsServed o internal w)
        | inr e ↦
            let v = row_of rt env i active b key (owner_of_plate rt i.plate w) in
            rw (e, persist)
              (published-IsServed o v (record w { violations = v ∷ w.violations }) w.violations
                env.publishes refl k refl)
      ]

  module _ (lib : Library rt) where
    issue-IsServed :
        (env : Env rt) (i : CreateInput rt) (o : Option Photo) (active : ActiveRuleset rt)
        (b : Breakdown rt.Float) (w : World rt)
        → IsServed (uploaded lib o) (issue rt lib env i o active b w)
    unfolding issue
    issue-IsServed env i o active b w = elim (Option-cases (store_photo rt lib env o w)) [
      | inl e ↦ rw (e, issue) (err-IsServed (uploaded lib o) internal w)
      | inr ((key, w'), e) ↦
          rw (e, issue)
            (persist-IsServed env i (uploaded lib o) active b key w'
              (store_photo-IsKeyOf lib env o w w' key e))
    ]

    price-IsServed :
        (env : Env rt) (i : CreateInput rt) (o : Option Photo) (active : Option (ActiveRuleset rt))
        (w : World rt)
        → IsServed (uploaded lib o) (price rt lib env i o active w)
    unfolding price
    price-IsServed env i o none w = err-IsServed (uploaded lib o) internal w
    price-IsServed env i o (some active) w = elim (Bool-cases env.count_fails) [
      | inl e ↦ rw (e, price) (err-IsServed (uploaded lib o) internal w)
      | inr e ↦ elim (Option-cases (calculate rt active.rules (fine_input rt lib i w))) [
        | inl f ↦ rw (e, price, f) (err-IsServed (uploaded lib o) invalid_input w)
        | inr (b, f) ↦ rw (e, price, f) (issue-IsServed env i o active b w)
      ]
    ]

    create-IsServed :
        (env : Env rt) (i : CreateInput rt) (o : Option Photo) (w : World rt)
        → IsServed (uploaded lib o) (create rt lib env i o w)
    unfolding create
    create-IsServed env i o w = elim (Bool-cases (is_valid_input rt lib i)) [
      | inl e ↦ rw (e, create) (price-IsServed env i o env.active w)
      | inr e ↦ rw (e, create) (err-IsServed (uploaded lib o) invalid_input w)
    ]

    -- A violation that is answered has the photo that was sent with it, if that had bytes: the answer
    -- says where it is, and asking for the photo of the violation gives that photo, with the content type that the store
    -- keeps. Without one, the
    -- answer has no URL and there is no photo to ask for.
    pub create-photo :
        (env : Env rt) (i : CreateInput rt) (o : Option Photo) (w : World rt) (v : Violation rt)
        → (create rt lib env i o w).0 ≡ ok v
        → (photo rt v.id (create rt lib env i o w).1 ≡ uploaded lib o)
          × (v.photo_url ≡ url_of v.id (uploaded lib o))
    create-photo env i o w v h = create-IsServed env i o w v h
