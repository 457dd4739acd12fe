-- ===== src/Rules.antt =====
-- internal/rules/{store,service,cache}.go: the versions of the ruleset, the active one, and its cache
-- in Redis. What the database and Redis do in a call is chosen by `Env`.
pub mod History
pub mod Serving
mod Tests
use swiftmind_parking_portal.Common.{
  ℕ, ◌+◌, String, Bool, true, false, ◌&&◌, Option, none, some, List, [], ◌∷◌, map, find?, length,
  leb, if◌then◌else◌, ◌==◌,
}
use swiftmind_parking_portal.Fine.Platform.{Runtime}
use swiftmind_parking_portal.Fine.{Ruleset, InvalidRuleset, validate, default_ruleset}

-- What a call meets: whether there is a Redis client, whether reading, writing and deleting in it work,
-- and whether the database answers.
pub record Env : Type 0 where
  pub has_redis : Bool
  pub get_works : Bool
  pub set_works : Bool
  pub delete_works : Bool
  pub database_works : Bool

module _ (rt : Runtime) where
  open rt use {Float}

  -- `Version`, without its time; `rules` is the field `Ruleset`.
  pub record Version : Type 0 where
    pub id : String
    pub version : ℕ
    pub is_active : Bool
    pub rules : Ruleset Float
    pub created_by : String

  -- The table `rule_versions`, newest first, and the key of the active version in Redis.
  pub record State : Type 0 where
    pub versions : List Version
    pub cache : Option Version

  -- `COALESCE(max(version), 0)`
  unfoldable pub max_version : List Version → ℕ
  max_version [] = 0
  max_version (v ∷ vs) = let rest = max_version vs in if leb rest v.version then v.version else rest

  -- `Store.Active`, where the query works.
  unfoldable pub stored_active : List Version → Option Version
  stored_active vs = find? (λ v. v.is_active) vs

  abbrev pub deactivate : Version → Version
  deactivate v = record v { is_active = false }

  -- `Store.Publish`, where the transaction commits: the new table, and the new version.
  unfoldable pub store_publish :
      (id : String) → Ruleset Float → (created_by : String) → List Version → List Version × Version
  unfolding max_version
  store_publish id rules created_by vs =
      let v : Version = record {
        id = id;
        version = max_version vs + 1;
        is_active = true;
        rules = rules;
        created_by = created_by;
      } in
      (v ∷ map deactivate vs, v)

  -- `Cache.GetActive`.
  unfoldable pub get_active : Env → State → Option Version
  get_active env s = if env.has_redis && env.get_works then s.cache else none

  -- `Cache.SetActive`.
  unfoldable pub set_active : Env → Version → State → State
  set_active env v s = if env.has_redis && env.set_works then record s { cache = some v } else s

  -- `Cache.Invalidate`.
  unfoldable pub invalidate : Env → State → State
  invalidate env s = if env.has_redis && env.delete_works then record s { cache = none } else s

  pub data Answer : Type 0 where
    ok : Version → Answer
    invalid : InvalidRuleset → Answer
    no_active internal : Answer

  -- `Service.Active` once the cache has not answered.
  unfoldable pub active_from_store : Env → State → Answer × State
  unfolding stored_active set_active
  active_from_store env s =
      if env.database_works
      then elim (stored_active s.versions) [
        | none ↦ (no_active, s)
        | some v ↦ (ok v, set_active env v s)
      ]
      else (internal, s)

  -- `Service.Active`.
  unfoldable pub active : Env → State → Answer × State
  unfolding active_from_store get_active
  active env s = elim (get_active env s) [ some v ↦ (ok v, s) | none ↦ active_from_store env s ]

  -- `Service.Publish`, with the identifier that the table gives.
  unfoldable pub publish :
      Env → (id : String) → Ruleset Float → (created_by : String) → State → Answer × State
  unfolding store_publish invalidate
  publish env id rules created_by s = elim (validate rt rules) [
    | some e ↦ (invalid e, s)
    | none ↦
        if env.database_works
        then (
          ok (store_publish id rules created_by s.versions).1,
          invalidate env (record s { versions = (store_publish id rules created_by s.versions).0 }),
        )
        else (internal, s)
  ]

  abbrev is_empty : List Version → Bool
  is_empty [] = true
  is_empty (_ ∷ _) = false

  -- `Service.Seed`, where the database works.
  unfoldable pub seed : (id : String) → State → State
  unfolding store_publish
  seed id s =
      if is_empty s.versions
      then record s { versions = (store_publish id (default_ruleset rt) "system" s.versions).0 }
      else s
