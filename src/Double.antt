-- ===== src/Double.antt =====
-- The floating-point numbers and the random generator that pubsuber/src/ExpoBackoff.cpp and
-- Distribution.h call: a parameter, with a fixed-point instance that meets the laws.
use native.Mathlib.Nat.{mul-le-mul_left}
use pubsuber.Base.{ℕ, ◌+◌, ◌*◌, ◌/◌, ◌^◌, ◌≤◌, ◌≡◌, Bool, false, ltb, arith}

pub record Float : Type 1 where
  pub Double : Type 0
  -- `double(n)`
  pub of_count : ℕ → Double
  -- `static_cast<uint64_t>(x)`
  pub to_u64 : Double → ℕ
  -- The literal m / 10^e.
  pub decimal : ℕ → ℕ → Double
  pub mul : Double → Double → Double
  pub lt : Double → Double → Bool
  pub ceil : Double → Double
  -- The k-th draw from the generator of random stream s, at a mean and a deviation.
  pub normal : ℕ → ℕ → Double → Double → Double

-- What the source relies on. A count up to 2^53 is a double, and its product with a factor from 0 to
-- 1 does not round above it.
pub record IsIeee (fl : Float) : Type 1 where
  pub scaled_le :
      (n : ℕ) (p : fl.Double)
      → n ≤ 2 ^ 53
      → fl.lt p (fl.decimal 0 0) ≡ false
      → fl.lt (fl.decimal 1 0) p ≡ false
      → fl.to_u64 (fl.ceil (fl.mul (fl.of_count n) p)) ≤ n
  pub percentile_low : fl.lt (fl.decimal 99 2) (fl.decimal 0 0) ≡ false
  pub percentile_high : fl.lt (fl.decimal 1 0) (fl.decimal 99 2) ≡ false

-- Millionths.
abbrev pub fixed_point : Float
fixed_point = record {
  Double = ℕ;
  of_count = λ n. n * 1_000_000;
  to_u64 = λ x. x / 1_000_000;
  decimal = λ m e. m * 1_000_000 / 10 ^ e;
  mul = λ x y. x * y / 1_000_000;
  lt = ltb;
  ceil = λ x. (x + 999_999) / 1_000_000 * 1_000_000;
  normal = λ s k mean sigma. mean;
}

le_of_ltb : (p : ℕ) → ltb 1_000_000 p ≡ false → p ≤ 1_000_000
le_of_ltb p h = ground arith

fixed_scaled_le :
    (n p : ℕ)
    → ltb 1_000_000 p ≡ false
    → ((n * 1_000_000 * p / 1_000_000 + 999_999) / 1_000_000 * 1_000_000) / 1_000_000 ≤ n
fixed_scaled_le n p h = omega (arith, mul-le-mul_left n (le_of_ltb p h))

pub fixed_point-IsIeee : IsIeee fixed_point
fixed_point-IsIeee = record {
  scaled_le = λ n p _ _ h. fixed_scaled_le n p h;
  percentile_low = ground arith;
  percentile_high = ground arith;
}
