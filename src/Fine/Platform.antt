-- ===== src/Fine/Platform.antt =====
-- What pkg/fine/fine.go takes from Go: `float64` with the operations that the code applies,
-- `math.Round` and `time.Time`. `RuntimeLaws` states the documented behaviour that proofs rely on.
use swiftmind_parking_portal.Common.{ℕ, ◌≡◌, Bool, false, ◌≤◌}
use swiftmind_parking_portal.Common.Int.{ℤ, pos, ◌≤ℤ◌}

pub record Runtime : Type 1 where
  pub Float : Type 0
  pub Time : Type 0
  -- `ts.Hour()`
  pub hour : Time → ℤ
  -- `float64(n)`
  pub of_int : ℤ → Float
  -- `x * y`
  pub times : Float → Float → Float
  -- `int64(math.Round(x))`
  pub round : Float → ℤ
  -- `x <= 0`
  pub at_most_zero : Float → Bool
  -- a literal with one decimal place, counted in tenths
  pub tenths : ℕ → Float

-- `Float` stands for the finite values, without NaN. Nothing is said of the conversion to an integer
-- out of the range of int64.
pub record RuntimeLaws (rt : Runtime) : Type 1 where
  -- the order of `float64`
  pub LeFloat : rt.Float → rt.Float → Type 0
  pub le_float_refl : (x : rt.Float) → LeFloat x x
  pub le_float_trans : (x y z : rt.Float) → LeFloat x y → LeFloat y z → LeFloat x z
  -- 1.0 is positive, and what is positive is not below zero
  pub one_pos : rt.at_most_zero (rt.tenths 10) ≡ false
  pub zero_le_of_pos : (x : rt.Float) → rt.at_most_zero x ≡ false → LeFloat (rt.tenths 0) x
  pub zero_le_of_int : (n : ℕ) → LeFloat (rt.tenths 0) (rt.of_int (pos n))
  -- IEEE 754: a product with 1.0 is exact
  pub times_one : (x : rt.Float) → rt.times x (rt.tenths 10) ≡ x
  -- IEEE 754: a product is the rounded exact product, so it keeps the sign, and it is monotone in
  -- a factor where the other one is not negative
  pub times_nonneg :
      (x y : rt.Float)
      → LeFloat (rt.tenths 0) x
      → LeFloat (rt.tenths 0) y
      → LeFloat (rt.tenths 0) (rt.times x y)
  pub times_mono_right :
      (x y z : rt.Float)
      → LeFloat (rt.tenths 0) z
      → LeFloat x y
      → LeFloat (rt.times z x) (rt.times z y)
  -- `math.Round` is monotone, and the conversion is exact for what an int64 holds: for instance from 0 to
  -- 2 ^ 62, which is a `float64`
  pub round_mono :
      (x y : rt.Float)
      → LeFloat (rt.tenths 0) x
      → LeFloat x y
      → LeFloat y (rt.of_int (pos 4611686018427387904))
      → rt.round x ≤ℤ rt.round y
  -- integers of up to 53 bits are converted and rounded exactly
  pub round_of_int : (n : ℕ) → n ≤ 9007199254740992 → rt.round (rt.of_int (pos n)) ≡ pos n
