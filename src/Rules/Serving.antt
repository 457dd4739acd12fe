-- ===== src/Rules/Serving.antt =====
-- internal/rules/service.go: what its operations, one after another, keep and answer.
use mathlib.Core.Option.{some-injective}
use swiftmind_parking_portal.Common.{
  String, ◌≡◌, refl, sym, ◌⊎◌, inl, inr, true, ◌&&◌, Option, none, some, List, [], ◌∷◌, find?,
  arith, Bool-cases, Option-cases,
}
use swiftmind_parking_portal.Fine.Platform.{Runtime}
use swiftmind_parking_portal.Fine.{Ruleset, validate, default_ruleset}
use swiftmind_parking_portal.Rules.{
  Env, Version, State, stored_active, store_publish, get_active, set_active, invalidate, Answer,
  active_from_store, active, publish, seed, ok,
}
use swiftmind_parking_portal.Rules.History.{OneActive, IsFresh, IsCurrent, store_publish-IsCurrent}

module _ (rt : Runtime) where
  open rt use {Float}

  abbrev pub empty : State rt
  empty = record { versions = []; cache = none }

  -- One operation of the service. A version that Redis holds is deleted from it when another one is
  -- published, and it may expire at any time; the day-one ruleset passes validation.
  pub data Step : State rt → State rt → Type 0 where
    published :
        (env : Env) (id : String) (rules : Ruleset Float) (created_by : String) (s : State rt)
        → (env.has_redis && env.delete_works ≡ true) ⊎ (s.cache ≡ none)
        → Step s (publish rt env id rules created_by s).1
    served : (env : Env) (s : State rt) → Step s (active rt env s).1
    seeded :
        (id : String) (s : State rt)
        → validate rt (default_ruleset rt) ≡ none
        → Step s (seed rt id s)
    expired : (s : State rt) → Step s (record s { cache = none })

  pub data Reach (s : State rt) : State rt → Type 0 where
    here : Reach s s
    next : {t u : State rt} → Reach s t → Step t u → Reach s u

  invalidate-none :
      (env : Env) (s : State rt) (vs : List (Version rt))
      → (env.has_redis && env.delete_works ≡ true) ⊎ (s.cache ≡ none)
      → invalidate rt env (record s { versions = vs }) ≡ record { versions = vs; cache = none }
  unfolding invalidate
  invalidate-none env s vs (inl e) = rw e refl
  invalidate-none env s vs (inr e) = ground arith

  publish-IsCurrent :
      (env : Env) (id : String) (rules : Ruleset Float) (created_by : String) (s : State rt)
      → (env.has_redis && env.delete_works ≡ true) ⊎ (s.cache ≡ none)
      → IsCurrent rt s
      → IsCurrent rt (publish rt env id rules created_by s).1
  unfolding publish
  publish-IsCurrent env id rules created_by s h c = elim (Option-cases (validate rt rules)) [
    | inr (x, e) ↦ rw (e, publish) c
    | inl e ↦ elim (Bool-cases env.database_works) [
      | inr d ↦ rw (e, d, publish) c
      | inl d ↦
          rw (e, d, publish)
            (rw (invalidate-none env s (store_publish rt id rules created_by s.versions).0 h) (
              store_publish-IsCurrent rt id rules created_by s.versions c.counts_down c.are_valid
                e))
    ]
  ]

  seed-IsCurrent :
      (id : String) (vs : List (Version rt)) (cache : Option (Version rt))
      → validate rt (default_ruleset rt) ≡ none
      → IsCurrent rt (record { versions = vs; cache = cache })
      → IsCurrent rt (seed rt id (record { versions = vs; cache = cache }))
  unfolding seed
  seed-IsCurrent id [] none v c =
      store_publish-IsCurrent rt id (default_ruleset rt) "system" [] tt tt v
  seed-IsCurrent id [] (some x) v c = absurd c.is_fresh
  seed-IsCurrent id (u ∷ vs) cache v c = c

  -- What a read that finds an active version in the table finds.
  stored_active-newest :
      (vs : List (Version rt)) (v : Version rt)
      → OneActive rt vs
      → stored_active rt vs ≡ some v
      → IsFresh rt (some v) vs
  unfolding stored_active
  stored_active-newest [] v o h = ground arith
  stored_active-newest (u ∷ vs) v o h = sym (some-injective u v (rw (o.0, find?) at h))

  set_active-IsCurrent :
      (env : Env) (v : Version rt) (s : State rt)
      → IsFresh rt (some v) s.versions
      → IsCurrent rt s
      → IsCurrent rt (set_active rt env v s)
  unfolding set_active
  set_active-IsCurrent env v s f c = elim (Bool-cases (env.has_redis && env.set_works)) [
    | inl e ↦
        rw (e, set_active)
          (record {
            counts_down = c.counts_down;
            one_active = c.one_active;
            are_valid = c.are_valid;
            is_fresh = f;
          })
    | inr e ↦ rw (e, set_active) c
  ]

  -- An answer with a version gives the newest one.
  abbrev pub AnswersNewest : Answer rt → List (Version rt) → Type 0
  AnswersNewest (ok v) vs = IsFresh rt (some v) vs
  AnswersNewest _ vs = Unit

  active_from_store-newest :
      (env : Env) (s : State rt)
      → IsCurrent rt s
      → AnswersNewest (active_from_store rt env s).0 s.versions
        × IsCurrent rt (active_from_store rt env s).1
  unfolding active_from_store
  active_from_store-newest env s c = elim (Bool-cases env.database_works) [
    | inr d ↦ rw (d, active_from_store) (tt, c)
    | inl d ↦ elim (Option-cases (stored_active rt s.versions)) [
      | inl e ↦ rw (d, e, active_from_store) (tt, c)
      | inr (v, e) ↦
          let newest = stored_active-newest s.versions v c.one_active e in
          rw (d, e, active_from_store) (newest, set_active-IsCurrent env v s newest c)
    ]
  ]

  get_active-fresh :
      (env : Env) (s : State rt) (v : Version rt) → get_active rt env s ≡ some v → s.cache ≡ some v
  unfolding get_active
  get_active-fresh env s v h = ground arith

  active-newest :
      (env : Env) (s : State rt)
      → IsCurrent rt s
      → AnswersNewest (active rt env s).0 s.versions × IsCurrent rt (active rt env s).1
  unfolding active
  active-newest env s c = elim (Option-cases (get_active rt env s)) [
    | inl e ↦ rw (e, active) (active_from_store-newest env s c)
    | inr (v, e) ↦
        let cached : s.cache ≡ some v = get_active-fresh env s v e in
        rw (e, active) (rw cached at c.is_fresh, c)
  ]

  expired-IsCurrent : (s : State rt) → IsCurrent rt s → IsCurrent rt (record s { cache = none })
  expired-IsCurrent s c = record {
    counts_down = c.counts_down;
    one_active = c.one_active;
    are_valid = c.are_valid;
    is_fresh = tt;
  }

  Step-IsCurrent : {s t : State rt} → Step s t → IsCurrent rt s → IsCurrent rt t
  Step-IsCurrent (published env id rules created_by s h) c =
      publish-IsCurrent env id rules created_by s h c
  Step-IsCurrent (served env s) c = (active-newest env s c).1
  Step-IsCurrent (seeded id s v) c = seed-IsCurrent id s.versions s.cache v c
  Step-IsCurrent (expired s) c = expired-IsCurrent s c

  -- From an empty table, any sequence of publications, reads and seedings, with any failures of the
  -- database and any but a failing deletion in Redis, reaches a state where the versions count down to
  -- 1, the newest one alone is active, each of them passes validation, and the cache holds no other one
  -- than the newest.
  pub Reach-IsCurrent : {s : State rt} → Reach empty s → IsCurrent rt s
  Reach-IsCurrent here = record { counts_down = tt; one_active = tt; are_valid = tt; is_fresh = tt }
  Reach-IsCurrent (next r s) = Step-IsCurrent s (Reach-IsCurrent r)

  -- In every state so reached, whatever of Redis and of the database works, a read of the active
  -- ruleset that answers a version answers the newest one.
  pub active-AnswersNewest :
      (env : Env) (s : State rt) → Reach empty s → AnswersNewest (active rt env s).0 s.versions
  active-AnswersNewest env s r = (active-newest env s (Reach-IsCurrent r)).0
