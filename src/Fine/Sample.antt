-- ===== src/Fine/Sample.antt =====
-- A runtime for concrete inputs: it counts in quarters, in which 1.0, 1.5 and 2.0 are whole; a time is
-- a number of hours.
use swiftmind_parking_portal.Common.{ℕ, ◌*◌, ◌/◌, ◌+◌, ◌%◌, ◌≤◌, ◌≡◌, refl, none, arith, leb}
use swiftmind_parking_portal.Common.Int.{ℤ, pos, negsuc}
use swiftmind_parking_portal.Fine.Platform.{Runtime, RuntimeLaws}
use swiftmind_parking_portal.Fine.{validate, default_ruleset}

abbrev pub quarters : ℤ → ℕ
quarters (pos n) = 4 * n
quarters (negsuc n) = 0

abbrev pub in_quarters : Runtime
in_quarters = record {
  Float = ℕ;
  Time = ℕ;
  hour = λ t. pos (t % 24);
  of_int = quarters;
  times = λ x y. x * y / 4;
  round = λ x. pos ((x + 2) / 4);
  at_most_zero = λ x. leb x 0;
  tenths = λ n. n * 4 / 10;
}

pub times_mono_quarters : (x y z : ℕ) → x ≤ y → z * x / 4 ≤ z * y / 4
times_mono_quarters x y z h = let k : z * x ≤ z * y = grind arith in omega arith

pub round_of_quarters : (n : ℕ) → pos ((4 * n + 2) / 4) ≡ pos n
round_of_quarters n = ground arith

abbrev pub in_quarters_laws : RuntimeLaws in_quarters
in_quarters_laws = record {
  LeFloat = ◌≤◌;
  le_float_refl = λ x. omega arith;
  le_float_trans = λ x y z h k. omega arith;
  one_pos = refl;
  zero_le_of_pos = λ x h. omega arith;
  zero_le_of_int = λ n. omega arith;
  times_one = λ x. omega arith;
  times_nonneg = λ x y h k. omega arith;
  times_mono_right = λ x y z h k. times_mono_quarters x y z k;
  round_mono = λ x y k h n. omega arith;
  round_of_int = λ n h. round_of_quarters n;
}

pub default_ruleset-valid : validate in_quarters (default_ruleset in_quarters) ≡ none
unfolding validate default_ruleset
default_ruleset-valid = refl
