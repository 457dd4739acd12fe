-- ===== src/Violation/Issued.antt =====
-- internal/violation/service.go, `Create`: the row that a report becomes, written out.
use swiftmind_parking_portal.Common.{
  String, ◌≡◌, ◌≢◌, refl, sym, ap, ◌∙◌, ◌⊎◌, inl, inr, Bool, true, Bool-cases, not, ◌&&◌, Option,
  none, some, Option-cases, List, [], ◌∷◌, lookup, length, select, ◌=t◌, ◌+t◌, if◌then◌else◌, arith,
}
use swiftmind_parking_portal.Common.Int.{pos}
use swiftmind_parking_portal.Fine.{Breakdown, calculate, validate}
use swiftmind_parking_portal.Fine.Platform.{Runtime, RuntimeLaws}
use swiftmind_parking_portal.Violation.{
  Photo, Library, CreateInput, ActiveRuleset, Violation, World, Env, Error, Answer, ok, err,
  attach_photo_url, owner_of_plate, row_of, count_if, count_prior_unpaid, fine_input,
  is_valid_input, create,
}
use swiftmind_parking_portal.Violation.Issuing.{Keeps, Inserts, create-Outcome}
use swiftmind_parking_portal.Violation.Pricing.{Works, create_total}

module _ (rt : Runtime) (lib : Library rt) where
  -- The unpaid violations of the plate in the ninety days, of 24 hours each, before the report.
  abbrev pub recent_unpaid : CreateInput rt → List (Violation rt) → List (Violation rt)
  recent_unpaid i vs =
      select
        (λ v.
          v.plate =t i.plate
          && v.payment_status =t "unpaid"
          && not (lib.before v.occurred_at (lib.sub_hours 2160 i.occurred_at))
          && lib.before v.occurred_at i.occurred_at)
        vs

  -- The owner whom the registry has for the plate, or "".
  abbrev pub IsOwner : (plate owner : String) → List (String × String) → Type 0
  IsOwner plate owner plates =
      (lookup plate plates ≡ some owner) ⊎ (lookup plate plates ≡ none) × (owner ≡ "")

  -- The row is the report, priced by the ruleset at the price of the breakdown.
  pub record IsPriced (env : Env rt) (i : CreateInput rt) (active : ActiveRuleset rt) (w : World rt)
      (b : Breakdown rt.Float) (row : Violation rt) : Type 0 where
    pub priced :
        calculate rt active.rules (record {
          violation_type = i.violation_type;
          occurred_at = i.occurred_at;
          prior_unpaid_count = pos (length (recent_unpaid i w.violations));
        })
        ≡ some b
    pub id : row.id ≡ env.row_id
    pub plate : row.plate ≡ i.plate
    pub violation_type : row.violation_type ≡ i.violation_type
    pub location : row.location ≡ i.location
    pub occurred_at : row.occurred_at ≡ i.occurred_at
    pub owner : IsOwner i.plate row.owner_email w.plates
    pub issuer : row.issued_by_email ≡ i.issued_by_email
    pub rule_version_id : row.rule_version_id ≡ active.id
    pub rule_version : row.rule_version ≡ active.version
    pub base_amount : row.base_amount ≡ b.base_amount
    pub time_multiplier : row.time_multiplier ≡ b.time_multiplier
    pub repeat_multiplier : row.repeat_multiplier ≡ b.repeat_multiplier
    pub prior : row.prior_unpaid_count ≡ b.prior_unpaid_count
    pub final_amount : row.final_amount ≡ b.final_amount
    pub status : row.payment_status ≡ "unpaid"

  -- The row is stored as the newest one and answered with the address of its photo, and its event is
  -- published if there is a broker.
  pub record IsStored (publishes : Bool) (w : World rt) (r : Answer rt × World rt)
      (row : Violation rt) : Type 0 where
    pub adds : r.1.violations ≡ row ∷ w.violations
    pub same_plates : r.1.plates ≡ w.plates
    pub answers :
        r.0
        ≡ ok (record row {
          photo_url =
              if row.photo_object =t "" then "" else "/api/violations/" +t (row.id +t "/photo");
        })
    pub announces : r.1.events ≡ (
        if publishes
        then record {
          violation_id = row.id;
          plate = row.plate;
          violation_type = row.violation_type;
          owner_email = row.owner_email;
          issued_by_email = row.issued_by_email;
          final_amount = row.final_amount;
        }
          ∷ w.events
        else w.events)

  -- The request is answered with the violation that it has issued.
  abbrev pub Issues : Env rt → CreateInput rt → World rt → Answer rt × World rt → Type 0
  Issues env i w r =
      (active : ActiveRuleset rt) × (b : Breakdown rt.Float) × (row : Violation rt) × (env.active
        ≡ some active)
      × IsPriced env i active w b row
      × IsStored env.publishes w r row

  count_if-length :
      (test : Violation rt → Bool) (vs : List (Violation rt))
      → count_if rt lib test vs ≡ length (select test vs)
  count_if-length test [] = refl
  count_if-length test (v ∷ vs) =
      let rest = count_if-length test vs in
      elim (Bool-cases (test v)) [
        | inl e ↦ rw (e, count_if, select, rest) (omega arith)
        | inr e ↦ rw (e, count_if, select) rest
      ]

  fine_input-prior :
      (i : CreateInput rt) (w : World rt)
      → (fine_input rt lib i w).prior_unpaid_count ≡ pos (length (recent_unpaid i w.violations))
  unfolding count_prior_unpaid
  fine_input-prior i w = ap pos (count_if-length _ w.violations)

  owner_of_plate-IsOwner :
      (plate : String) (w : World rt) → IsOwner plate (owner_of_plate rt plate w) w.plates
  unfolding owner_of_plate
  owner_of_plate-IsOwner plate w = elim (Option-cases (lookup plate w.plates)) [
    | inl e ↦ rw (e, owner_of_plate) (inr (refl, refl))
    | inr (o, e) ↦ rw (e, owner_of_plate) (inl refl)
  ]

  attached :
      (v : Violation rt)
      → v.photo_url ≡ ""
      → attach_photo_url rt v ≡ record v {
        photo_url = if v.photo_object =t "" then "" else "/api/violations/" +t (v.id +t "/photo");
      }
  unfolding attach_photo_url
  attached v h = elim (Bool-cases (v.photo_object =t "")) [
    | inl e ↦ rw (e, attach_photo_url) (ap (λ u. record v { photo_url = u }) h)
    | inr e ↦ rw (e, attach_photo_url) refl
  ]

  inserted-Issues :
      (env : Env rt) (i : CreateInput rt) (active : ActiveRuleset rt) (b : Breakdown rt.Float)
      (key : String) (w : World rt) (r : Answer rt × World rt)
      → env.active ≡ some active
      → calculate rt active.rules (fine_input rt lib i w) ≡ some b
      → Inserts rt env.publishes (row_of rt env i active b key (owner_of_plate rt i.plate w)) w r
      → Issues env i w r
  inserted-Issues env i active b key w r a c k =
      let row = row_of rt env i active b key (owner_of_plate rt i.plate w) in
      (
        active,
        b,
        row,
        a,
        record {
          priced =
              ap
                (λ n. calculate rt active.rules (record {
                  violation_type = i.violation_type;
                  occurred_at = i.occurred_at;
                  prior_unpaid_count = n;
                }))
                (sym (fine_input-prior i w))
              ∙ c;
          id = refl;
          plate = refl;
          violation_type = refl;
          location = refl;
          occurred_at = refl;
          owner = owner_of_plate-IsOwner i.plate w;
          issuer = refl;
          rule_version_id = refl;
          rule_version = refl;
          base_amount = refl;
          time_multiplier = refl;
          repeat_multiplier = refl;
          prior = refl;
          final_amount = refl;
          status = refl;
        },
        record {
          adds = k.adds;
          same_plates = k.same_plates;
          answers = k.answers ∙ ap ok (attached row refl);
          announces = k.events;
        },
      )

  -- A request to issue a violation either answers an error, and then the plates, the violations and the
  -- published events are as they were; or the input is complete and of a known type, the rules
  -- service answered a ruleset, and the newest violation is a row with the fields of the report and
  -- the breakdown that this ruleset gives for it and for the number of the plate's unpaid
  -- violations of the ninety days before, with the ruleset's identifier and version, the owner of
  -- the plate and the status "unpaid". That row, with the address of its photo, is the answer, and
  -- if there is a broker its event is published.
  pub create-Issues :
      (env : Env rt) (i : CreateInput rt) (photo : Option Photo) (w : World rt)
      → ((e : Error) × ((create rt lib env i photo w).0 ≡ err e)
          × Keeps rt w (create rt lib env i photo w).1)
        ⊎ (is_valid_input rt lib i ≡ true) × Issues env i w (create rt lib env i photo w)
  create-Issues env i photo w = elim (create-Outcome rt lib env i photo w) [
    | inl k ↦ inl k
    | inr (active, b, key, a, valid, c, k) ↦
        inr (valid, inserted-Issues env i active b key w (create rt lib env i photo w) a c k)
  ]

  answered : (e : Error) (v : Violation rt) → ◌≢◌ {A = Answer rt} (err e) (ok v)
  answered e v h = ground arith

  -- With a complete input of a known type, an active ruleset that passes validation, and no call that
  -- fails, a violation is issued: it is priced by the ruleset, stored as the newest one, answered, and
  -- published if there is a broker.
  pub create-succeeds :
      (laws : RuntimeLaws rt) (env : Env rt) (i : CreateInput rt) (photo : Option Photo)
      (active : ActiveRuleset rt) (w : World rt)
      → Works rt env
      → env.active ≡ some active
      → validate rt active.rules ≡ none
      → is_valid_input rt lib i ≡ true
      → Issues env i w (create rt lib env i photo w)
  create-succeeds laws env i photo active w works a r valid =
      let (v, h) = create_total rt lib laws env i photo active w works a r valid in
      elim (create-Issues env i photo w) [
        | inl (e, p, _) ↦ absurd (answered e v (sym p ∙ h))
        | inr (_, k) ↦ k
      ]
