-- ===== src/Distribution/Tests.antt =====
-- The theorems on pubsuber/src/Distribution.h at a histogram of four cells.
use pubsuber.Base.{ℕ, ◌≡◌, refl, [], ◌∷◌, some, arith}
use pubsuber.Double.{fixed_point, fixed_point-IsIeee}
use pubsuber.Distribution.{Distribution, percentile, percentile_target}
use pubsuber.Distribution.Records.{total}
use pubsuber.Distribution.Percentiles.{Reaches, percentile-Reaches}

abbrev four_cells : Distribution
four_cells = record { hist = 5 ∷ 0 ∷ 2 ∷ 1 ∷ [] }

percentile-Reaches_example :
    (i : ℕ) × (percentile fixed_point four_cells (fixed_point.decimal 75 2) ≡ some i)
    × Reaches 0
        (percentile_target fixed_point (total four_cells.hist) (fixed_point.decimal 75 2))
        four_cells.hist
        i
unfolding total
percentile-Reaches_example =
    percentile-Reaches fixed_point four_cells (fixed_point.decimal 75 2) fixed_point-IsIeee refl
      refl (omega arith) (omega arith)
