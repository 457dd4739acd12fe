-- ===== src/Rules/Tests.antt =====
-- The rules service at concrete inputs, over floats that count in tenths.
use swiftmind_parking_portal.Common.{ℕ, ◌+◌, ◌*◌, ◌≡◌, refl, ◌⊎◌, inl, true, none, ◌∷◌, map, leb}
use swiftmind_parking_portal.Common.Int.{ℤ, pos, negsuc}
use swiftmind_parking_portal.Fine.Platform.{Runtime}
use swiftmind_parking_portal.Fine.{validate, default_ruleset}
use swiftmind_parking_portal.Rules.{Env, State, max_version, active, publish, seed}
use swiftmind_parking_portal.Rules.History.{IsCurrent, content, publish-keeps}
use swiftmind_parking_portal.Rules.Serving.{
  empty, Reach, here, next, published, served, seeded, AnswersNewest, Reach-IsCurrent,
  active-AnswersNewest,
}

abbrev tenfold : ℤ → ℕ
tenfold (pos n) = 10 * n
tenfold (negsuc n) = 0

abbrev in_tenths : Runtime
in_tenths = record {
  Float = ℕ;
  Time = ℤ;
  hour = λ ts. ts;
  of_int = tenfold;
  times = λ x y. x * y;
  round = λ x. pos x;
  at_most_zero = λ x. leb x 0;
  tenths = λ n. n;
}

abbrev works : Env
works = record {
  has_redis = true;
  get_works = true;
  set_works = true;
  delete_works = true;
  database_works = true;
}

abbrev seeded_state : State in_tenths
seeded_state = (active in_tenths works (seed in_tenths "r-1" (empty in_tenths))).1

validate-default : validate in_tenths (default_ruleset in_tenths) ≡ none
unfolding validate default_ruleset
validate-default = refl

seeded_state-Reach : Reach in_tenths (empty in_tenths) seeded_state
seeded_state-Reach =
    next (next here (seeded "r-1" (empty in_tenths) validate-default))
      (served works (seed in_tenths "r-1" (empty in_tenths)))

Reach-IsCurrent_example :
    IsCurrent in_tenths
      (publish in_tenths works "r-2"
        (default_ruleset in_tenths)
        "officer@parkwatch.test"
        seeded_state).1
Reach-IsCurrent_example = Reach-IsCurrent in_tenths (
    next seeded_state-Reach (
      published works "r-2" (default_ruleset in_tenths) "officer@parkwatch.test" seeded_state
        (inl refl)))

active-AnswersNewest_example :
    AnswersNewest in_tenths (active in_tenths works seeded_state).0 seeded_state.versions
active-AnswersNewest_example = active-AnswersNewest in_tenths works seeded_state seeded_state-Reach

publish-keeps_example :
    ((publish in_tenths works "r-2" (default_ruleset in_tenths) "officer" seeded_state).1.versions
      ≡ seeded_state.versions)
    ⊎ (validate in_tenths (default_ruleset in_tenths) ≡ none)
      × (map
            (content in_tenths)
            (publish in_tenths works "r-2"
              (default_ruleset in_tenths)
              "officer"
              seeded_state).1.versions
          ≡ (max_version in_tenths seeded_state.versions + 1, default_ruleset in_tenths, "officer")
            ∷ map (content in_tenths) seeded_state.versions)
publish-keeps_example =
    publish-keeps in_tenths works "r-2" (default_ruleset in_tenths) "officer" seeded_state
