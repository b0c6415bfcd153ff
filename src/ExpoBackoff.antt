-- ===== src/ExpoBackoff.antt =====
-- pubsuber/src/ExpoBackoff.h and ExpoBackoff.cpp, with the policy of
-- pubsuber/include/pubsuber/Pubsuber.h. Delays are counts of milliseconds.
pub mod Bounds
mod Tests
use pubsuber.Base.{ℕ, ◌+◌, ◌%◌, ◌^◌, ltb, if◌then◌else◌}
use pubsuber.Double.{Float}

module _ (fl : Float) where
  open fl use {Double, of_count, to_u64, decimal, mul, lt, normal}

  pub record ExponentialBackoffPolicy : Type 0 where
    pub initial_delay : ℕ
    pub max_delay : ℕ
    pub scale : Double

  -- `_gen` is the number of its random stream and how often it was drawn from.
  pub record ExpoBackoff : Type 0 where
    pub policy : ExponentialBackoffPolicy
    pub stream : ℕ
    pub drawn : ℕ
    pub current_interval : ℕ
    pub jitter : Double
    pub attempt : ℕ

  abbrev pub default_jitter : Double
  default_jitter = decimal 11049435140430175 17

  unfoldable pub create : ExponentialBackoffPolicy → ℕ → ExpoBackoff
  create policy stream = record {
    policy = policy;
    stream = stream;
    drawn = 0;
    current_interval = policy.initial_delay;
    jitter = default_jitter;
    attempt = 0;
  }

  -- The next interval before the jitter.
  next_time : ExpoBackoff → Double
  next_time b =
      let next = mul (of_count b.current_interval) b.policy.scale in
      if ltb b.policy.max_delay (to_u64 next) then of_count b.policy.max_delay else next

  -- The interval that is drawn around `next`, or `next` itself where there is no jitter.
  jittered : ExpoBackoff → Double → ExpoBackoff
  jittered b next =
      if lt b.jitter (decimal 1 4) then record b { current_interval = to_u64 next } else (record b {
        current_interval = to_u64 (normal b.stream b.drawn next (mul b.jitter next));
        drawn = b.drawn + 1;
      })

  capped : ExpoBackoff → ExpoBackoff
  capped b =
      if ltb b.policy.max_delay b.current_interval
      then record b { current_interval = b.policy.max_delay }
      else b

  pub calculate_next : ExpoBackoff → ExpoBackoff
  unfolding next_time jittered capped
  calculate_next b = capped (jittered b (next_time b))

  -- `Delay()`: the delay and the generator after it. `_attempt` is a `uint32_t`.
  unfoldable pub delay : ExpoBackoff → ℕ × ExpoBackoff
  unfolding calculate_next
  delay b = (b.current_interval, calculate_next (record b { attempt = (b.attempt + 1) % 2 ^ 32 }))
