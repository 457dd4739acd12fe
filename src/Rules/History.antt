-- ===== src/Rules/History.antt =====
-- internal/rules/{store,service,cache}.go: the history of versions, and what the cache answers.
use swiftmind_parking_portal.Common.{
  ℕ, ◌+◌, String, ◌≡◌, refl, ◌⊎◌, inl, inr, true, false, Option, none, some, List, [], ◌∷◌, All,
  map, length, arith, Bool-cases, Option-cases, ap, ◌∙◌,
}
use swiftmind_parking_portal.Fine.Platform.{Runtime}
use swiftmind_parking_portal.Fine.{Ruleset, validate}
use swiftmind_parking_portal.Rules.{
  Env, Version, State, max_version, deactivate, store_publish, invalidate, publish,
}

module _ (rt : Runtime) where
  open rt use {Float}

  -- Newest first, the versions count down to 1.
  abbrev pub CountsDown : List (Version rt) → Type 0
  CountsDown [] = Unit
  CountsDown (v ∷ vs) = (v.version ≡ length vs + 1) × CountsDown vs

  -- The newest version is active and no other one is.
  abbrev pub OneActive : List (Version rt) → Type 0
  OneActive [] = Unit
  OneActive (v ∷ vs) = (v.is_active ≡ true) × All (λ u. u.is_active ≡ false) vs

  -- What the cache holds is the newest version.
  abbrev pub IsFresh : Option (Version rt) → List (Version rt) → Type 0
  IsFresh none vs = Unit
  IsFresh (some c) [] = ⊥
  IsFresh (some c) (v ∷ vs) = c ≡ v

  pub record IsCurrent (s : State rt) : Type 0 where
    pub counts_down : CountsDown s.versions
    pub one_active : OneActive s.versions
    pub are_valid : All (λ v. validate rt v.rules ≡ none) s.versions
    pub is_fresh : IsFresh s.cache s.versions

  max_version-CountsDown : (vs : List (Version rt)) → CountsDown vs → max_version rt vs ≡ length vs
  unfolding max_version
  max_version-CountsDown [] c = refl
  max_version-CountsDown (v ∷ vs) c = ground (arith, max_version-CountsDown vs c.1)

  length-deactivate : (vs : List (Version rt)) → length (map (deactivate rt) vs) ≡ length vs
  length-deactivate [] = refl
  length-deactivate (v ∷ vs) = omega (arith, length-deactivate vs)

  deactivate-CountsDown :
      (vs : List (Version rt)) → CountsDown vs → CountsDown (map (deactivate rt) vs)
  deactivate-CountsDown [] c = tt
  deactivate-CountsDown (v ∷ vs) c =
      (omega (arith, length-deactivate vs, c.0), deactivate-CountsDown vs c.1)

  deactivate-All :
      (vs : List (Version rt)) → All (λ u. u.is_active ≡ false) (map (deactivate rt) vs)
  deactivate-All [] = tt
  deactivate-All (v ∷ vs) = (refl, deactivate-All vs)

  deactivate-valid :
      (vs : List (Version rt))
      → All (λ v. validate rt v.rules ≡ none) vs
      → All (λ v. validate rt v.rules ≡ none) (map (deactivate rt) vs)
  deactivate-valid [] c = tt
  deactivate-valid (v ∷ vs) c = (c.0, deactivate-valid vs c.1)

  -- A new version over an empty cache.
  pub store_publish-IsCurrent :
      (id : String) (rules : Ruleset Float) (created_by : String) (vs : List (Version rt))
      → CountsDown vs
      → All (λ v. validate rt v.rules ≡ none) vs
      → validate rt rules ≡ none
      → IsCurrent (record { versions = (store_publish rt id rules created_by vs).0; cache = none })
  unfolding store_publish
  store_publish-IsCurrent id rules created_by vs c v n = record {
    counts_down = (
      omega (arith, max_version-CountsDown vs c, length-deactivate vs),
      deactivate-CountsDown vs c,
    );
    one_active = (refl, deactivate-All vs);
    are_valid = (n, deactivate-valid vs v);
    is_fresh = tt;
  }

  -- A version's number, ruleset and author.
  abbrev pub content : Version rt → ℕ × Ruleset Float × String
  content v = (v.version, v.rules, v.created_by)

  content-deactivate :
      (vs : List (Version rt)) → map content (map (deactivate rt) vs) ≡ map content vs
  content-deactivate [] = refl
  content-deactivate (v ∷ vs) = ap (λ cs. content v ∷ cs) (content-deactivate vs)

  invalidate-versions : (env : Env) (s : State rt) → (invalidate rt env s).versions ≡ s.versions
  unfolding invalidate
  invalidate-versions env s = ground arith

  store_publish-content :
      (id : String) (rules : Ruleset Float) (created_by : String) (vs : List (Version rt))
      → map content (store_publish rt id rules created_by vs).0
        ≡ (max_version rt vs + 1, rules, created_by) ∷ map content vs
  unfolding store_publish
  store_publish-content id rules created_by vs =
      ap (λ cs. (max_version rt vs + 1, rules, created_by) ∷ cs) (content-deactivate vs)

  -- A publication leaves the table as it was, or its ruleset passes validation and a version with it
  -- is put in front: the number, the ruleset and the author of no earlier version change.
  pub publish-keeps :
      (env : Env) (id : String) (rules : Ruleset Float) (created_by : String) (s : State rt)
      → ((publish rt env id rules created_by s).1.versions ≡ s.versions)
        ⊎ (validate rt rules ≡ none)
          × (map content (publish rt env id rules created_by s).1.versions
              ≡ (max_version rt s.versions + 1, rules, created_by) ∷ map content s.versions)
  unfolding publish
  publish-keeps env id rules created_by s = elim (Option-cases (validate rt rules)) [
    | inr (x, e) ↦ inl (rw (e, publish) refl)
    | inl e ↦ elim (Bool-cases env.database_works) [
      | inr d ↦ inl (rw (e, d, publish) refl)
      | inl d ↦ inr (
        e,
        rw (e, d, publish)
            (ap (map content) (
                invalidate-versions env
                  (record s { versions = (store_publish rt id rules created_by s.versions).0 }))
              ∙ store_publish-content id rules created_by s.versions),
      )
    ]
  ]
