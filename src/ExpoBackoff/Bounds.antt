-- ===== src/ExpoBackoff/Bounds.antt =====
-- The delays of pubsuber/src/ExpoBackoff.cpp stay within the policy's limit.
use pubsuber.Base.{
  ℕ, zero, suc, ◌+◌, ◌%◌, ◌^◌, ◌≤◌, ◌<◌, ◌≡◌, refl, ap, List, [], ◌∷◌, All, length, arith,
}
use pubsuber.Double.{Float}
use pubsuber.ExpoBackoff.{ExponentialBackoffPolicy, ExpoBackoff, create, calculate_next, delay}

module _ (fl : Float) where
  pub calculate_next-le :
      (b : ExpoBackoff fl) → (calculate_next fl b).current_interval ≤ b.policy.max_delay
  unfolding calculate_next
  calculate_next-le b = ground arith

  pub calculate_next_keeps :
      (b : ExpoBackoff fl)
      → ((calculate_next fl b).policy ≡ b.policy) × ((calculate_next fl b).attempt ≡ b.attempt)
  unfolding calculate_next
  calculate_next_keeps b = (ground arith, ground arith)

  pub delay-attempt : (b : ExpoBackoff fl) → (delay fl b).1.attempt ≡ (b.attempt + 1) % 2 ^ 32
  unfolding delay
  delay-attempt b = (calculate_next_keeps (record b { attempt = (b.attempt + 1) % 2 ^ 32 })).1

  delay_keeps :
      (b : ExpoBackoff fl)
      → ((delay fl b).1.policy ≡ b.policy) × ((delay fl b).1.current_interval ≤ b.policy.max_delay)
  unfolding delay
  delay_keeps b =
      let counted : ExpoBackoff fl = record b { attempt = (b.attempt + 1) % 2 ^ 32 } in
      ((calculate_next_keeps counted).0, calculate_next-le counted)

  delay_now : (b : ExpoBackoff fl) → (delay fl b).0 ≡ b.current_interval
  unfolding delay
  delay_now b = refl

  -- The delays of `n` calls of `Delay()` in a row, and the generator after them.
  unfoldable pub delays : ℕ → ExpoBackoff fl → List ℕ × ExpoBackoff fl
  delays zero b = ([], b)
  delays (suc n) b = let (d, b') = delay fl b in let (ds, b'') = delays n b' in (d ∷ ds, b'')

  delays-All-le :
      (n m : ℕ) (b : ExpoBackoff fl)
      → b.policy.max_delay ≡ m
      → b.current_interval ≤ m
      → All (λ d. d ≤ m) (delays n b).0
  unfolding delays
  delays-All-le zero m b e h = tt
  delays-All-le (suc n) m b e h =
      let (kept, below) = delay_keeps b in
      (
        rw (delay_now b) h,
        delays-All-le n m (delay fl b).1 (ground (arith, kept)) (omega (arith, below)),
      )

  length-delays : (n : ℕ) (b : ExpoBackoff fl) → length (delays n b).0 ≡ n
  unfolding delays
  length-delays zero b = refl
  length-delays (suc n) b = ap suc (length-delays n (delay fl b).1)

  -- A new generator first gives the initial delay of its policy, whatever the limit is, and every
  -- later delay is at most the limit, whatever numbers are drawn.
  pub delays-create :
      (n stream : ℕ) (policy : ExponentialBackoffPolicy fl)
      → (later : List ℕ) × ((delays (suc n) (create fl policy stream)).0
          ≡ policy.initial_delay ∷ later)
        × (length later ≡ n)
        × All (λ d. d ≤ policy.max_delay) later
  unfolding delays create
  delays-create n stream policy =
      let b : ExpoBackoff fl = create fl policy stream in
      let b' : ExpoBackoff fl = (delay fl b).1 in
      let (kept, below) = delay_keeps b in
      (
        (delays n b').0,
        ap (λ d. d ∷ (delays n b').0) (delay_now b),
        length-delays n b',
        delays-All-le n policy.max_delay b' (ground (arith, kept)) below,
      )

  -- `RetryCount()` counts the calls of `Delay()`, as long as they are fewer than 2^32.
  pub delays-attempt :
      (n : ℕ) (b : ExpoBackoff fl) → b.attempt + n < 2 ^ 32 → (delays n b).1.attempt ≡ b.attempt + n
  unfolding delays
  delays-attempt zero b h = omega arith
  delays-attempt (suc n) b h =
      omega
        (arith, delays-attempt n (delay fl b).1 (omega (arith, delay-attempt b)), delay-attempt b)
