-- ===== src/Violation.antt =====
-- internal/violation/{store,service}.go: issuing violations, listing them, and marking them paid.
-- A call of the database, of the object store or of the broker that fails is chosen by `Env`.
mod Data
mod Store
pub mod Issuing
pub mod Visibility
pub mod Pricing
pub mod Uploads
pub mod Issued
mod Tests
pub use Data.*
unfoldable pub use Store.*
use swiftmind_parking_portal.Common.{
  ℕ, ◌+◌, ◌*◌, String, Bool, true, false, not, ◌&&◌, ◌||◌, Option, none, some, List, [], ◌∷◌, ◌++◌,
  map, find?, select, lookup, ltb, ◌=t◌, ◌+t◌, if◌then◌else◌,
}
use swiftmind_parking_portal.Common.Int.{ℤ, pos}
use swiftmind_parking_portal.Domain.{role_member, valid_violation_type}
use swiftmind_parking_portal.Events.{ViolationCreated}
use swiftmind_parking_portal.Fine.{Breakdown, Input, calculate}
use swiftmind_parking_portal.Fine.Platform.{Runtime}

-- `repeatWindow`, in hours.
abbrev pub repeat_window : ℕ
repeat_window = 90 * 24

module _ (rt : Runtime) where
  open rt use {Float, Time}

  -- `attachPhotoURL`.
  unfoldable pub attach_photo_url : Violation rt → Violation rt
  attach_photo_url v =
      if v.photo_object =t ""
      then v
      else record v { photo_url = "/api/violations/" +t (v.id +t "/photo") }

  -- `Service.List`.
  unfoldable pub list_for : (role email : String) → World rt → List (Violation rt)
  unfolding list_violations
  list_for role email w =
      map attach_photo_url (list_violations rt (if role =t role_member then email else "") w)

  -- `Service.Get` on what the store gave.
  abbrev pub shown : (role email : String) → Option (Violation rt) → Answer rt
  shown role email none = err not_found
  shown role email (some v) =
      if role =t role_member && not (v.owner_email =t email)
      then err not_found
      else ok (attach_photo_url v)

  -- `Service.Get`.
  unfoldable pub get : (id role email : String) → World rt → Answer rt
  unfolding stored
  get id role email w = shown role email (stored rt id w)

  -- `Service.Photo` up to the object store, and the object that it gives.
  unfoldable pub photo : String → World rt → Option Photo
  unfolding stored
  photo id w = elim (stored rt id w) [
    | none ↦ none
    | some v ↦ if v.photo_object =t "" then none else lookup v.photo_object w.photos
  ]

  -- The event of `publishCreated`.
  abbrev pub created : Violation rt → ViolationCreated
  created v = record {
    violation_id = v.id;
    plate = v.plate;
    violation_type = v.violation_type;
    owner_email = v.owner_email;
    issued_by_email = v.issued_by_email;
    final_amount = v.final_amount;
  }

  -- `publishCreated`.
  unfoldable pub publish_created : Bool → Violation rt → World rt → World rt
  publish_created publishes v w =
      if publishes then record w { events = created v ∷ w.events } else w

  -- Step 4 of `Create`: the key of the photo, and the world with it; `none` where the upload fails.
  unfoldable pub store_photo :
      Library rt → Env rt → Option Photo → World rt → Option (String × World rt)
  store_photo lib env none w = some ("", w)
  store_photo lib env (some p) w =
      let key = "violations/" +t (env.photo_uuid +t lib.ext p.filename) in
      if not (ltb 0 p.size)
      then some ("", w)
      else if env.put_fails
      then none
      else some (
        key,
        record w {
          photos = (key, record p { content_type = lib.stored_type p.content_type }) ∷ w.photos;
        },
      )

  -- The row of steps 5 and 6.
  abbrev pub row_of :
      Env rt
      → CreateInput rt
      → ActiveRuleset rt
      → Breakdown Float
      → (key owner : String) → Violation rt
  row_of env i active b key owner = record {
    id = env.row_id;
    plate = i.plate;
    violation_type = i.violation_type;
    location = i.location;
    occurred_at = i.occurred_at;
    photo_object = key;
    photo_url = "";
    owner_email = owner;
    issued_by_email = i.issued_by_email;
    rule_version_id = active.id;
    rule_version = active.version;
    base_amount = b.base_amount;
    time_multiplier = b.time_multiplier;
    repeat_multiplier = b.repeat_multiplier;
    prior_unpaid_count = b.prior_unpaid_count;
    final_amount = b.final_amount;
    payment_status = "unpaid";
  }

  -- Steps 5 to 7 of `Create`.
  unfoldable pub persist :
      Env rt
      → CreateInput rt
      → ActiveRuleset rt
      → Breakdown Float
      → (key : String) → World rt
      → Answer rt × World rt
  unfolding owner_of_plate publish_created
  persist env i active b key w =
      if env.owner_fails || env.insert_fails
      then (err internal, w)
      else let v = row_of env i active b key (owner_of_plate rt i.plate w) in
        (
          ok (attach_photo_url v),
          publish_created env.publishes v (record w { violations = v ∷ w.violations }),
        )

  module _ (lib : Library rt) where
    -- The input of step 3.
    abbrev pub fine_input : CreateInput rt → World rt → Input Time
    fine_input i w = record {
      violation_type = i.violation_type;
      occurred_at = i.occurred_at;
      prior_unpaid_count = pos (
          count_prior_unpaid rt lib i.plate (lib.sub_hours repeat_window i.occurred_at)
            i.occurred_at w);
    }

    -- Steps 4 to 7.
    unfoldable pub issue :
        Env rt
        → CreateInput rt
        → Option Photo
        → ActiveRuleset rt
        → Breakdown Float
        → World rt
        → Answer rt × World rt
    unfolding store_photo persist
    issue env i photo active b w = elim (store_photo lib env photo w) [
      | none ↦ (err internal, w)
      | some (key, w') ↦ persist env i active b key w'
    ]

    -- Steps 2 to 7, with the answer of the rules service.
    unfoldable pub price :
        Env rt
        → CreateInput rt
        → Option Photo
        → Option (ActiveRuleset rt)
        → World rt
        → Answer rt × World rt
    unfolding issue count_prior_unpaid
    price env i photo none w = (err internal, w)
    price env i photo (some active) w =
        if env.count_fails
        then (err internal, w)
        else elim (calculate rt active.rules (fine_input i w)) [
          | none ↦ (err invalid_input, w)
          | some b ↦ issue env i photo active b w
        ]

    -- The checks of `Create` before it calls anybody.
    abbrev pub is_valid_input : CreateInput rt → Bool
    is_valid_input i =
        not (i.plate =t "" || i.location =t "" || lib.is_zero i.occurred_at)
        && valid_violation_type i.violation_type

    -- `Create`.
    unfoldable pub create : Env rt → CreateInput rt → Option Photo → World rt → Answer rt × World rt
    unfolding price
    create env i photo w =
        if is_valid_input i then price env i photo env.active w else (err invalid_input, w)
