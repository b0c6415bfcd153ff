-- ===== src/ExpoBackoff/Tests.antt =====
-- Runs of pubsuber/src/ExpoBackoff.cpp on concrete policies.
use pubsuber.Base.{ℕ, suc, ◌≤◌, ◌≡◌, refl, List, [], ◌∷◌, All, length}
use pubsuber.Double.{fixed_point}
use pubsuber.ExpoBackoff.{ExponentialBackoffPolicy, create, delay}
use pubsuber.ExpoBackoff.Bounds.{delays, delays-create}

abbrev example_policy : ExponentialBackoffPolicy fixed_point
example_policy = record { initial_delay = 250; max_delay = 3000; scale = 2_718_281 }

five_delays :
    (delays fixed_point 5 (create fixed_point example_policy 0)).0
    ≡ 250 ∷ 679 ∷ 1845 ∷ 3000 ∷ 3000 ∷ []
unfolding delays delay create
five_delays = refl

delays-create_example :
    (later : List ℕ) × ((delays fixed_point (suc 4) (create fixed_point example_policy 0)).0
      ≡ 250 ∷ later)
    × (length later ≡ 4)
    × All (λ d. d ≤ 3000) later
delays-create_example = delays-create fixed_point 4 0 example_policy
