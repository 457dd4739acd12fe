-- ===== src/Violation/Issuing.antt =====
-- internal/violation/service.go, `Create`: what a request to issue a violation does, on every branch.
use swiftmind_parking_portal.Common.{
  String, ◌≡◌, refl, ◌⊎◌, inl, inr, Bool, true, false, Bool-cases, Option, none, some, Option-cases,
  ◌∷◌, ap, ◌||◌, if◌then◌else◌, arith,
}
use swiftmind_parking_portal.Fine.{Breakdown, calculate}
use swiftmind_parking_portal.Fine.Platform.{Runtime}
use swiftmind_parking_portal.Violation.{
  Photo, Library, CreateInput, ActiveRuleset, Violation, World, Env, Error, Answer, ok, err,
  invalid_input, internal, attach_photo_url, owner_of_plate, created, publish_created, store_photo,
  row_of, persist, fine_input, issue, price, is_valid_input, create,
}

module _ (rt : Runtime) where
  -- The tables and the events are the same; the object store may differ.
  pub record Keeps (w w' : World rt) : Type 0 where
    pub same_plates : w'.plates ≡ w.plates
    pub same_violations : w'.violations ≡ w.violations
    pub same_events : w'.events ≡ w.events

  Keeps-refl : (w : World rt) → Keeps w w
  Keeps-refl w = record { same_plates = refl; same_violations = refl; same_events = refl }

  -- The row is the newest violation, it is the answer up to its `photo_url`, and its event has been
  -- published if there is a broker.
  pub record Inserts (publishes : Bool) (row : Violation rt) (w : World rt)
      (r : Answer rt × World rt) : Type 0 where
    pub answers : r.0 ≡ ok (attach_photo_url rt row)
    pub same_plates : r.1.plates ≡ w.plates
    pub adds : r.1.violations ≡ row ∷ w.violations
    pub events : r.1.events ≡ (if publishes then created rt row ∷ w.events else w.events)

  -- The request is refused and changes no table, or it inserts the row of a breakdown.
  abbrev Ends :
      Env rt
      → CreateInput rt
      → ActiveRuleset rt
      → Breakdown rt.Float
      → World rt
      → Answer rt × World rt
      → Type 0
  Ends env i active b w r =
      ((e : Error) × (r.0 ≡ err e) × Keeps w r.1)
      ⊎ (key : String) × Inserts env.publishes
          (row_of rt env i active b key (owner_of_plate rt i.plate w)) w r

  publish_created-Inserts :
      (publishes : Bool) (row : Violation rt) (w w' : World rt)
      → Keeps w w'
      → Inserts publishes row w (
        ok (attach_photo_url rt row),
        publish_created rt publishes row (record w' { violations = row ∷ w'.violations }),
      )
  unfolding publish_created
  publish_created-Inserts true row w w' k = record {
    answers = refl;
    same_plates = k.same_plates;
    adds = ap (λ vs. row ∷ vs) k.same_violations;
    events = ap (λ es. created rt row ∷ es) k.same_events;
  }
  publish_created-Inserts false row w w' k = record {
    answers = refl;
    same_plates = k.same_plates;
    adds = ap (λ vs. row ∷ vs) k.same_violations;
    events = k.same_events;
  }

  owner_of_plate-Keeps :
      (plate : String) (w w' : World rt)
      → Keeps w w'
      → owner_of_plate rt plate w' ≡ owner_of_plate rt plate w
  unfolding owner_of_plate
  owner_of_plate-Keeps plate w w' k = rw k.same_plates refl

  persist-Ends :
      (env : Env rt) (i : CreateInput rt) (active : ActiveRuleset rt) (b : Breakdown rt.Float)
      (key : String) (w w' : World rt)
      → Keeps w w'
      → Ends env i active b w (persist rt env i active b key w')
  unfolding persist
  persist-Ends env i active b key w w' k = elim (Bool-cases (env.owner_fails || env.insert_fails)) [
    | inl e ↦ inl (internal, rw (e, persist) refl, rw (e, persist) k)
    | inr e ↦ inr (
      key,
      rw (e, persist, owner_of_plate-Keeps i.plate w w' k)
          (publish_created-Inserts env.publishes
            (row_of rt env i active b key (owner_of_plate rt i.plate w)) w w' k),
    )
  ]

  store_photo-Keeps :
      (lib : Library rt) (env : Env rt) (photo : Option Photo) (w w' : World rt) (key : String)
      → store_photo rt lib env photo w ≡ some (key, w')
      → Keeps w w'
  unfolding store_photo
  store_photo-Keeps lib env none w w' key h = record {
    same_plates = ground arith;
    same_violations = ground arith;
    same_events = ground arith;
  }
  store_photo-Keeps lib env (some p) w w' key h = record {
    same_plates = ground arith;
    same_violations = ground arith;
    same_events = ground arith;
  }

  module _ (lib : Library rt) where
    issue-Ends :
        (env : Env rt) (i : CreateInput rt) (photo : Option Photo) (active : ActiveRuleset rt)
        (b : Breakdown rt.Float) (w : World rt)
        → Ends env i active b w (issue rt lib env i photo active b w)
    unfolding issue
    issue-Ends env i photo active b w = elim (Option-cases (store_photo rt lib env photo w)) [
      | inl e ↦ inl (internal, rw (e, issue) refl, rw (e, issue) (Keeps-refl w))
      | inr ((key, w'), e) ↦
          rw (e, issue)
            (persist-Ends env i active b key w w' (store_photo-Keeps lib env photo w w' key e))
    ]

    -- What a request comes to: an error that changes no table, or the row of what the active ruleset
    -- gives.
    abbrev pub Outcome : CreateInput rt → Env rt → World rt → Answer rt × World rt → Type 0
    Outcome i env w r =
        ((e : Error) × (r.0 ≡ err e) × Keeps w r.1)
        ⊎ (active : ActiveRuleset rt) × (b : Breakdown rt.Float) × (key : String) × (env.active
            ≡ some active)
          × (is_valid_input rt lib i ≡ true)
          × (calculate rt active.rules (fine_input rt lib i w) ≡ some b)
          × Inserts env.publishes (row_of rt env i active b key (owner_of_plate rt i.plate w)) w r

    price-Outcome :
        (env : Env rt) (i : CreateInput rt) (photo : Option Photo)
        (active : Option (ActiveRuleset rt)) (w : World rt)
        → env.active ≡ active
        → is_valid_input rt lib i ≡ true
        → Outcome i env w (price rt lib env i photo active w)
    unfolding price
    price-Outcome env i photo none w a v = inl (internal, refl, Keeps-refl w)
    price-Outcome env i photo (some active) w a v = elim (Bool-cases env.count_fails) [
      | inl e ↦ inl (internal, rw (e, price) refl, rw (e, price) (Keeps-refl w))
      | inr e ↦ elim (Option-cases (calculate rt active.rules (fine_input rt lib i w))) [
        | inl f ↦ inl (invalid_input, rw (e, price, f) refl, rw (e, price, f) (Keeps-refl w))
        | inr (b, f) ↦ elim (issue-Ends env i photo active b w) [
          | inl (x, p, k) ↦ inl (x, rw (e, price, f) p, rw (e, price, f) k)
          | inr (key, k) ↦ inr (active, b, key, a, v, f, rw (e, price, f) k)
        ]
      ]
    ]

    gate-Outcome :
        (env : Env rt) (i : CreateInput rt) (photo : Option Photo) (w : World rt) (valid : Bool)
        → is_valid_input rt lib i ≡ valid
        → Outcome i env w
            (if valid then price rt lib env i photo env.active w else (err invalid_input, w))
    gate-Outcome env i photo w true e = price-Outcome env i photo env.active w refl e
    gate-Outcome env i photo w false e = inl (invalid_input, refl, Keeps-refl w)

    -- A request to issue a violation either answers an error, and then the plates, the violations and
    -- the published events are as they were; or the input is complete and of a known type, the rules
    -- service answered a ruleset, and the newest violation is the row with the breakdown that this
    -- ruleset gives for the input and for the plate's unpaid violations of the ninety days before,
    -- with the ruleset's version, the owner of the plate and the status "unpaid". That row, with the
    -- address of its photo, is the answer, and if there is a broker its event is published.
    pub create-Outcome :
        (env : Env rt) (i : CreateInput rt) (photo : Option Photo) (w : World rt)
        → Outcome i env w (create rt lib env i photo w)
    unfolding create
    create-Outcome env i photo w = gate-Outcome env i photo w (is_valid_input rt lib i) refl
