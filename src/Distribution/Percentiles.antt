-- ===== src/Distribution/Percentiles.antt =====
-- What `Percentile` of pubsuber/src/Distribution.h finds.
use pubsuber.Base.{
  ℕ, zero, suc, ◌+◌, ◌%◌, ◌^◌, ◌≤◌, ◌<◌, ◌≡◌, List, [], ◌∷◌, some, length, arith, refl, dec_lt, ltb,
  lt→ltb, ge→ltb, if◌then◌else◌, false,
}
use pubsuber.Double.{Float, IsIeee}
use pubsuber.Distribution.{Distribution, partial_sums, lower_bound, percentile_target, percentile}
use pubsuber.Distribution.Records.{total}

-- How many values the first `n` cells count.
pub count_below : ℕ → List ℕ → ℕ
count_below zero xs = 0
count_below (suc n) [] = 0
count_below (suc n) (x ∷ xs) = x + count_below n xs

length-partial_sums : (sum : ℕ) (xs : List ℕ) → length (partial_sums sum xs).0 ≡ length xs
unfolding partial_sums
length-partial_sums sum [] = refl
length-partial_sums sum (x ∷ xs) = omega (arith, length-partial_sums ((sum + x) % 2 ^ 64) xs)

partial_sums-total :
    (sum : ℕ) (xs : List ℕ) → sum + total xs < 2 ^ 64 → (partial_sums sum xs).1 ≡ sum + total xs
unfolding partial_sums total
partial_sums-total sum [] h = omega arith
partial_sums-total sum (x ∷ xs) h =
    omega (arith, partial_sums-total ((sum + x) % 2 ^ 64) xs (omega arith))

filled : (xs : List ℕ) → 0 < total xs → 0 < length xs
unfolding total
filled [] h = absurd (omega arith)
filled (x ∷ xs) h = omega arith

-- Place `i` is the first whose cells, with `sum` before them, reach `target`.
abbrev pub Reaches : ℕ → ℕ → List ℕ → ℕ → Type 0
Reaches sum target xs i =
    (i < length xs)
    × (target ≤ sum + count_below (suc i) xs)
    × ((j : ℕ) → j < i → sum + count_below (suc j) xs < target)

Reaches-suc :
    (sum target x : ℕ) (xs : List ℕ) (i : ℕ)
    → sum + x < target
    → Reaches (sum + x) target xs i
    → Reaches sum target (x ∷ xs) (suc i)
unfolding count_below
Reaches-suc sum target x xs i h r = (omega arith, omega arith, before)
  where
    before : (j : ℕ) → j < suc i → sum + count_below (suc j) (x ∷ xs) < target
    before zero k = omega arith
    before (suc j) k = omega (arith, r.2 j (omega arith))

Reaches-zero : (sum target x : ℕ) (xs : List ℕ) → target ≤ sum + x → Reaches sum target (x ∷ xs) 0
unfolding count_below
Reaches-zero sum target x xs h = (omega arith, omega arith, λ j k. absurd (omega arith))

lower_bound_step :
    (sum target x : ℕ) (xs : List ℕ)
    → sum + x < 2 ^ 64
    → lower_bound (partial_sums sum (x ∷ xs)).0 target
      ≡ (if ltb (sum + x) target then suc (lower_bound (partial_sums (sum + x) xs).0 target) else 0)
unfolding partial_sums lower_bound
lower_bound_step sum target x xs h =
    let small : (sum + x) % 2 ^ 64 ≡ sum + x = omega arith in rw small

lower_bound-Reaches :
    (sum target : ℕ) (xs : List ℕ)
    → sum + total xs < 2 ^ 64
    → target ≤ sum + total xs
    → 0 < length xs
    → Reaches sum target xs (lower_bound (partial_sums sum xs).0 target)
unfolding total
lower_bound-Reaches sum target [] h t n = absurd (omega arith)
lower_bound-Reaches sum target (x ∷ xs) h t n =
    rw (lower_bound_step sum target x xs (omega arith)) (elim (dec_lt (sum + x) target) [
      | yes less ↦ rw (lt→ltb _ _ less) (
          Reaches-suc sum target x xs _ less (
            lower_bound-Reaches (sum + x) target xs (omega arith) (omega arith)
              (filled xs (omega arith))))
      | no more ↦
          rw (ge→ltb (sum + x) target (omega arith)) (Reaches-zero sum target x xs (omega arith))
    ])

module _ (fl : Float) where
  open fl use {Double, decimal, lt}

  -- For a factor from 0 to 1, `Percentile` of a histogram with a cell that counts at most 2^53
  -- values does not throw: it returns the first cell at which the count of the values up to it
  -- reaches the target. The floating-point numbers meet their laws.
  pub percentile-Reaches :
      (d : Distribution) (p : Double)
      → IsIeee fl
      → lt p (decimal 0 0) ≡ false
      → lt (decimal 1 0) p ≡ false
      → 0 < length d.hist
      → total d.hist ≤ 2 ^ 53
      → (i : ℕ) × (percentile fl d p ≡ some i)
        × Reaches 0 (percentile_target fl (total d.hist) p) d.hist i
  unfolding percentile
  percentile-Reaches d p ieee low high n h =
      let target : ℕ = percentile_target fl (total d.hist) p in
      let reach : target ≤ total d.hist = ieee.scaled_le (total d.hist) p h low high in
      let i : ℕ = lower_bound (partial_sums 0 d.hist).0 target in
      let reaches : Reaches 0 target d.hist i =
        lower_bound-Reaches 0 target d.hist (omega arith) (omega arith) n in
      let summed : (partial_sums 0 d.hist).1 ≡ total d.hist =
        omega (arith, partial_sums-total 0 d.hist) in
      (i, rw (low, high, summed) (ground (arith, length-partial_sums 0 d.hist, reaches.0)), reaches)
