-- ===== src/Distribution.antt =====
-- pubsuber/src/Distribution.h: a histogram of times and its percentiles.
pub mod Records
pub mod Percentiles
mod Tests
use pubsuber.Base.{
  ℕ, zero, suc, ◌+◌, ◌-◌, ◌%◌, ◌^◌, List, [], ◌∷◌, Bool, ◌||◌, Option, none, some, ltb, leb, ◌==◌,
  if◌then◌else◌, length,
}
use pubsuber.Double.{Float}

-- `hist` has `HighLimit` cells of 64 bits.
pub record Distribution : Type 0 where
  pub hist : List ℕ

-- The constructor's body is empty, so the atomic cells keep what their memory held: `raw`.
pub create : List ℕ → Distribution
create raw = record { hist = raw }

unfoldable pub increment : ℕ → List ℕ → List ℕ
increment i [] = []
increment zero (x ∷ xs) = (x + 1) % 2 ^ 64 ∷ xs
increment (suc i) (x ∷ xs) = x ∷ increment i xs

-- `Record(v)` of a `uint64_t`; `none` is the `std::runtime_error`.
unfoldable pub record_value : ℕ → Distribution → Option Distribution
unfolding increment
record_value v d =
    if ltb v 0
    then none
    else (if leb (length d.hist) v
        then some (record { hist = increment (length d.hist - 1) d.hist })
        else some (record { hist = increment v d.hist }))

-- The array `sums`, and `sum` after the loop.
pub partial_sums : ℕ → List ℕ → List ℕ × ℕ
partial_sums sum [] = ([], sum)
partial_sums sum (x ∷ xs) =
    let sum' = (sum + x) % 2 ^ 64 in let (sums, all) = partial_sums sum' xs in (sum' ∷ sums, all)

-- `std::lower_bound` on an ascending range: the place of its first element that is not below.
pub lower_bound : List ℕ → ℕ → ℕ
lower_bound [] target = 0
lower_bound (s ∷ sums) target = if ltb s target then suc (lower_bound sums target) else 0

module _ (fl : Float) where
  open fl use {Double, of_count, to_u64, decimal, mul, lt, ceil}

  -- The number of records that the percentile has to reach.
  abbrev pub percentile_target : ℕ → Double → ℕ
  percentile_target sum p = to_u64 (ceil (mul (of_count sum) p))

  -- `Percentile(p)`; `none` is either `std::runtime_error`.
  unfoldable pub percentile : Distribution → Double → Option ℕ
  unfolding partial_sums lower_bound
  percentile d p =
      if lt p (decimal 0 0) || lt (decimal 1 0) p
      then none
      else (let (sums, sum) = partial_sums 0 d.hist in
          let place = lower_bound sums (percentile_target sum p) in
          if place == length sums then none else some place)
