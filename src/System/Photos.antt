-- ===== src/System/Photos.antt =====
-- internal/violation and the services around it: the photos that the violations name.
mod Tests
use mathlib.Core.Path.{subst}
use mathlib.Core.Option.{some-injective}
use swiftmind_parking_portal.Common.{
  String, ◌≡◌, ◌≢◌, refl, ◌⊎◌, inl, inr, Bool, true, false, Bool-cases, Option, none, some,
  Option-cases, List, ◌∷◌, lookup, ltb, ◌=t◌, ◌+t◌, ◌||◌, if◌then◌else◌, All, All-imp, All-map,
  find?-holds, arith, eq_iff,
}
use swiftmind_parking_portal.Fine.{Breakdown, calculate}
use swiftmind_parking_portal.Fine.Platform.{Runtime}
use swiftmind_parking_portal.Violation.{
  Photo, Library, CreateInput, ActiveRuleset, Violation, World, Env, stored, photo, mark_paid,
  owner_of_plate, seed_plate, publish_created, store_photo, row_of, persist, fine_input, issue,
  price, is_valid_input, create,
}
use swiftmind_parking_portal.Violation.Uploads.{uploaded, IsKeyOf, no_key, store_photo-IsKeyOf}
use swiftmind_parking_portal.Notification
use swiftmind_parking_portal.System.{
  System, Step, seeded, issued, invoiced, paid, settled, told_created, told_completed, Reach, here,
  next, open_invoice, settle_violation,
}

-- There is an object under the key, or the key is none.
abbrev pub IsHeld : List (String × Photo) → (key : String) → Type 0
IsHeld photos key = (key ≡ "") ⊎ (p : Photo) × (lookup key photos ≡ some p)

IsHeld-put :
    (k : String) (p : Photo) (photos : List (String × Photo)) (key : String)
    → IsHeld photos key
    → IsHeld ((k, p) ∷ photos) key
IsHeld-put k p photos key (inl e) = inl e
IsHeld-put k p photos key (inr (q, h)) = elim (Bool-cases (k =t key)) [
  | inl e ↦ inr (p, rw e refl)
  | inr e ↦ inr (q, rw e h)
]

IsKeyOf-IsHeld :
    (rt : Runtime) (o : Option Photo) (key : String) (photos : List (String × Photo))
    → IsKeyOf rt o key photos
    → IsHeld photos key
IsKeyOf-IsHeld rt none key photos h = inl h
IsKeyOf-IsHeld rt (some p) key photos h = inr (p, h.1)

module _ (rt : Runtime) where
  -- Every violation's photo is held.
  abbrev pub IsBacked : World rt → Type 0
  IsBacked w = All (λ v. IsHeld w.photos v.photo_object) w.violations

  store_photo-IsBacked :
      (lib : Library rt) (env : Env rt) (o : Option Photo) (w w' : World rt) (key : String)
      → store_photo rt lib env o w ≡ some (key, w')
      → IsBacked w
      → IsBacked w'
  unfolding store_photo
  store_photo-IsBacked lib env none w w' key h b =
      subst (λ x. IsBacked x.1) (some-injective ("", w) (key, w') h) b
  store_photo-IsBacked lib env (some p) w w' key h b = elim (Bool-cases (ltb 0 p.size)) [
    | inr e ↦
        subst (λ x. IsBacked x.1) (some-injective ("", w) (key, w') (rw (e, store_photo) at h)) b
    | inl e ↦ elim (Bool-cases env.put_fails) [
      | inl f ↦ absurd (no_key rt (key, w') (rw (e, f, store_photo) at h))
      | inr f ↦
          let own = "violations/" +t (env.photo_uuid +t lib.ext p.filename) in
          let object = record p { content_type = lib.stored_type p.content_type } in
          let stores = record w { photos = (own, object) ∷ w.photos } in
          let same = some-injective (own, stores) (key, w') (rw (e, f, store_photo) at h) in
          subst (λ x. IsBacked x.1) same
            (All-imp w.violations (λ v. IsHeld-put own object w.photos v.photo_object) b)
    ]
  ]

  published-IsBacked :
      (publishes : Bool) (v : Violation rt) (w : World rt)
      → IsBacked w
      → IsBacked (publish_created rt publishes v w)
  unfolding publish_created
  published-IsBacked true v w b = b
  published-IsBacked false v w b = b

  persist-IsBacked :
      (env : Env rt) (i : CreateInput rt) (active : ActiveRuleset rt) (b : Breakdown rt.Float)
      (key : String) (w : World rt)
      → IsHeld w.photos key
      → IsBacked w
      → IsBacked (persist rt env i active b key w).1
  unfolding persist
  persist-IsBacked env i active b key w k h =
      elim (Bool-cases (env.owner_fails || env.insert_fails)) [
        | inl e ↦ rw (e, persist) h
        | inr e ↦
            let v = row_of rt env i active b key (owner_of_plate rt i.plate w) in
            rw (e, persist)
              (published-IsBacked env.publishes v (record w { violations = v ∷ w.violations })
                (k, h))
      ]

  module _ (lib : Library rt) where
    issue-IsBacked :
        (env : Env rt) (i : CreateInput rt) (o : Option Photo) (active : ActiveRuleset rt)
        (b : Breakdown rt.Float) (w : World rt)
        → IsBacked w
        → IsBacked (issue rt lib env i o active b w).1
    unfolding issue
    issue-IsBacked env i o active b w h = elim (Option-cases (store_photo rt lib env o w)) [
      | inl e ↦ rw (e, issue) h
      | inr ((key, w'), e) ↦
          rw (e, issue)
            (persist-IsBacked env i active b key w'
              (IsKeyOf-IsHeld rt (uploaded rt lib o) key w'.photos
                (store_photo-IsKeyOf rt lib env o w w' key e))
              (store_photo-IsBacked lib env o w w' key e h))
    ]

    price-IsBacked :
        (env : Env rt) (i : CreateInput rt) (o : Option Photo) (active : Option (ActiveRuleset rt))
        (w : World rt)
        → IsBacked w
        → IsBacked (price rt lib env i o active w).1
    unfolding price
    price-IsBacked env i o none w h = h
    price-IsBacked env i o (some active) w h = elim (Bool-cases env.count_fails) [
      | inl e ↦ rw (e, price) h
      | inr e ↦ elim (Option-cases (calculate rt active.rules (fine_input rt lib i w))) [
        | inl f ↦ rw (e, price, f) h
        | inr (b, f) ↦ rw (e, price, f) (issue-IsBacked env i o active b w h)
      ]
    ]

    create-IsBacked :
        (env : Env rt) (i : CreateInput rt) (o : Option Photo) (w : World rt)
        → IsBacked w
        → IsBacked (create rt lib env i o w).1
    unfolding create
    create-IsBacked env i o w h = elim (Bool-cases (is_valid_input rt lib i)) [
      | inl e ↦ rw (e, create) (price-IsBacked env i o env.active w h)
      | inr e ↦ rw (e, create) h
    ]

  seed_plate-IsBacked :
      (plate owner : String) (w : World rt) → IsBacked w → IsBacked (seed_plate rt plate owner w)
  unfolding seed_plate
  seed_plate-IsBacked plate owner w h = elim (Option-cases (lookup plate w.plates)) [
    | inl e ↦ rw (e, seed_plate) h
    | inr (o, e) ↦ rw (e, seed_plate) h
  ]

  mark-IsHeld :
      (here : Bool) (photos : List (String × Photo)) (v : Violation rt)
      → IsHeld photos v.photo_object
      → IsHeld photos (if here then record v { payment_status = "paid" } else v).photo_object
  mark-IsHeld true photos v h = h
  mark-IsHeld false photos v h = h

  mark_paid-IsBacked : (id : String) (w : World rt) → IsBacked w → IsBacked (mark_paid rt id w)
  unfolding mark_paid
  mark_paid-IsBacked id w h =
      All-map (λ v. IsHeld w.photos v.photo_object) _ w.violations
        (All-imp w.violations (λ v. mark-IsHeld (v.id =t id) w.photos v) h)

  photo-held :
      (id : String) (w : World rt) (v : Violation rt)
      → stored rt id w ≡ some v
      → v.photo_object ≢ ""
      → IsHeld w.photos v.photo_object
      → (p : Photo) × (photo rt id w ≡ some p)
  unfolding photo
  photo-held id w v f n (inl e) = absurd (n e)
  photo-held id w v f n (inr (p, h)) =
      let named : (v.photo_object =t "") ≡ false = ground (arith, eq_iff v.photo_object "") in
      (p, rw (f, photo, named) h)

  module _ (lib : Library rt) (texts : Notification.Library) where
    Step-IsBacked :
        {s t : System rt} → Step rt lib texts s t → IsBacked s.violation → IsBacked t.violation
    unfolding settle_violation open_invoice
    Step-IsBacked (seeded plate owner s) h = seed_plate-IsBacked plate owner s.violation h
    Step-IsBacked (issued env i o s n) h = create-IsBacked lib env i o s.violation h
    Step-IsBacked (invoiced id evt s k n) h = h
    Step-IsBacked (paid env id scenario caller s) h = h
    Step-IsBacked (settled evt s k) h = mark_paid-IsBacked evt.violation_id s.violation h
    Step-IsBacked (told_created env evt s k) h = h
    Step-IsBacked (told_completed env evt s k) h = h

    Reach-IsBacked :
        {s t : System rt} → IsBacked s.violation → Reach rt lib texts s t → IsBacked t.violation
    Reach-IsBacked h here = h
    Reach-IsBacked h (next r st) = Step-IsBacked st (Reach-IsBacked h r)

    -- Whatever has been requested and delivered since no violation named a photo that was not in the
    -- object store, such as since the tables were empty, and whichever calls failed: the photo of a
    -- violation that is found and names one is there to be fetched.
    pub Reach-photo :
        {s t : System rt} (id : String) (v : Violation rt)
        → IsBacked s.violation
        → Reach rt lib texts s t
        → stored rt id t.violation ≡ some v
        → v.photo_object ≢ ""
        → (p : Photo) × (photo rt id t.violation ≡ some p)
    unfolding stored
    Reach-photo {t = t} id v h r f n = photo-held id t.violation v f n (
        find?-holds (λ x. IsHeld t.violation.photos x.photo_object) _ t.violation.violations v f
          (Reach-IsBacked h r))
