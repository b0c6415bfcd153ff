-- ===== src/Retriable/Attempts.antt =====
-- How often the loop of pubsuber/src/Retriable.h calls the service, and how it ends.
use pubsuber.Base.{
  ℕ, ◌+◌, ◌-◌, ◌*◌, ◌^◌, ◌≤◌, ◌<◌, ◌≡◌, ◌⊎◌, inl, refl, List, ◌∷◌, true, length, All, arith,
}
use pubsuber.Double.{Float}
use pubsuber.ExpoBackoff.{ExpoBackoff, create}
use pubsuber.ExpoBackoff.Bounds.{delay-attempt}
use pubsuber.Io.{
  StatusCode, Exception, from_status, Request, Reply, sent, World, returned, Ends, sends,
}
use pubsuber.Retriable.Loop.{Rule}
use pubsuber.Retriable.Loop
use pubsuber.Retriable.{
  RetryCountPolicy, MaxRetryTimePolicy, Policies, CallResult, second, retries_exhausted,
  default_rpc_timeout, make_call,
}

-- The loop answers a status with this code by another attempt.
abbrev pub IsRetried : StatusCode → Type 0
IsRetried code = (code ≡ StatusCode.deadline_exceeded) ⊎ (code ≡ StatusCode.unavailable)

-- Some limit on the number of retries, which the `uint32_t` counter can pass.
abbrev pub IsLimited : RetryCountPolicy → Type 0
IsLimited c = (0 < c.count) × (c.count + 1 < 2 ^ 32)

exhausted_by_count :
    (start now retry_count : ℕ) (c : RetryCountPolicy) (t : MaxRetryTimePolicy)
    → 0 < c.count
    → c.count < retry_count
    → retries_exhausted start now retry_count c t ≡ true
unfolding retries_exhausted
exhausted_by_count start now retry_count c t h k = ground arith

module _ (fl : Float) (request : Request) (p : Policies fl) where
  -- `n` calls were made before; the loop has not passed the limit, and enough answers are to come.
  record Counted (n : ℕ) (rs : List Reply) (b : ExpoBackoff fl) (timeout : ℕ) (last : StatusCode)
      (w : World) : Type 0 where
    within : b.attempt ≤ p.count_policy.count + 1
    enough : p.count_policy.count + 1 ≤ b.attempt + length rs
    counted : sends w.log ≡ n + b.attempt
    code : ((last ≡ StatusCode.ok) × (b.attempt ≡ 0)) ⊎ (IsRetried last × (0 < b.attempt))

  abbrev pub Answered : ℕ → CallResult → World → Type 0
  Answered n r w = (sends w.log ≤ n + p.count_policy.count + 1) × (¬ IsRetried r.status.error_code)

  abbrev pub GaveUp : ℕ → Exception → World → Type 0
  GaveUp n e w =
      (sends w.log ≤ n + p.count_policy.count + 1)
      × (((e.code ≡ from_status StatusCode.ok) × (sends w.log ≡ n))
          ⊎ (((e.code ≡ from_status StatusCode.deadline_exceeded)
                ⊎ (e.code ≡ from_status StatusCode.unavailable))
              × (n < sends w.log)))

  Counted-Rule :
      (n start : ℕ)
      → IsLimited p.count_policy
      → Rule fl request p start (Counted n) (Answered n) (GaveUp n) ⊥
  Counted-Rule n start lim = record {
    give_up = λ rs b timeout last w h e. ground arith;
    no_answer = λ b timeout last w h e.
        ground (
          arith,
          exhausted_by_count start (w.clock w.reads) b.attempt p.count_policy p.time_policy,
        );
    answer = λ r rs b timeout last w h e f.
        ground (
          arith,
          exhausted_by_count start (w.clock w.reads) b.attempt p.count_policy p.time_policy,
        );
    retry = λ r rs b timeout timeout' last w h e f. ground (
      arith,
      delay-attempt fl b,
      exhausted_by_count start (w.clock w.reads) b.attempt p.count_policy p.time_policy,
    );
  }

  -- A call under a retry limit that the 32-bit counter can pass returns or throws, once the server
  -- gives as many answers as the limit and one more: it makes at most one call more than the limit,
  -- a status that it returns is none to retry, and the code that it throws is that of a retried
  -- status where it made a call, and OK where it made none.
  pub make_call-Ends :
      (w : World)
      → IsLimited p.count_policy
      → p.count_policy.count + 1 ≤ length w.replies
      → Ends (Answered (sends w.log)) (GaveUp (sends w.log)) (make_call fl request p w)
  unfolding make_call create
  make_call-Ends w lim enough =
      Loop.attempts-Holds fl request p _ (Counted (sends w.log)) (Answered (sends w.log))
        (GaveUp (sends w.log)) ⊥ (Counted-Rule (sends w.log) _ lim) w.replies _ _ _ _
        (record {
          within = omega arith;
          enough = omega arith;
          counted = omega arith;
          code = inl (refl, omega arith);
        })

  record Refused (clock : ℕ → ℕ) (n : ℕ) (rs : List Reply) (b : ExpoBackoff fl) (timeout : ℕ)
      (last : StatusCode) (w : World) : Type 0 where
    within : b.attempt ≤ p.count_policy.count + 1
    enough : p.count_policy.count + 1 ≤ b.attempt + length rs
    counted : sends w.log ≡ n + b.attempt
    same_clock : w.clock ≡ clock
    refused : All (λ (r : Reply). IsRetried r.status.error_code) rs

  going_by_count :
      (start now retry_count : ℕ)
      → now - start ≤ p.time_policy.interval * second
      → retries_exhausted start now retry_count p.count_policy p.time_policy ≡ true
      → p.count_policy.count < retry_count
  unfolding retries_exhausted
  going_by_count start now retry_count h e = ground arith

  -- While the server answers every attempt with a status to retry, gives enough answers, and the
  -- retry time lasts, a call under a retry limit that the 32-bit counter can pass is tried exactly
  -- once more often than the limit says, and then throws.
  pub make_call_refused :
      (w : World)
      → IsLimited p.count_policy
      → p.count_policy.count + 1 ≤ length w.replies
      → All (λ (r : Reply). IsRetried r.status.error_code) w.replies
      → ((n : ℕ) → w.clock n - w.clock w.reads ≤ p.time_policy.interval * second)
      → Ends
          (λ r w'. ⊥)
          (λ e w'. sends w'.log ≡ sends w.log + (p.count_policy.count + 1))
          (make_call fl request p w)
  unfolding make_call create
  make_call_refused w lim enough refused lasts =
      Loop.attempts-Holds fl request p _ (Refused w.clock (sends w.log)) _ _ ⊥
        (record {
          give_up = λ rs b timeout last w' h e. ground (
            arith,
            going_by_count (w.clock w.reads) (w'.clock w'.reads) b.attempt,
            lasts w'.reads,
          );
          no_answer = λ b timeout last w' h e. ground (
            arith,
            exhausted_by_count (w.clock w.reads) (w'.clock w'.reads) b.attempt p.count_policy
                p.time_policy,
          );
          answer = λ r rs b timeout last w' h e f. ground (arith, h.refused.0);
          retry = λ r rs b timeout timeout' last w' h e f. ground (
            arith,
            delay-attempt fl b,
            exhausted_by_count (w.clock w.reads) (w'.clock w'.reads) b.attempt p.count_policy
                p.time_policy,
          );
        })
        w.replies _ _ _ _
        (record {
          within = omega arith;
          enough = omega arith;
          counted = omega arith;
          same_clock = refl;
          refused = refused;
        })

  -- An answer that is none to retry is returned after one call, with no sleep, if the retry time has
  -- not run out before it.
  pub make_call_first_answer :
      (w : World) (r : Reply) (rs : List Reply)
      → w.replies ≡ r ∷ rs
      → ¬ IsRetried r.status.error_code
      → w.clock (w.reads + 1) - w.clock w.reads ≤ p.time_policy.interval * second
      → make_call fl request p w
        ≡ returned
            (record { status = r.status; next = w.clock (w.reads + 1 + 1); response = r.response })
            (record w {
              replies = rs;
              reads = w.reads + 1 + 1 + 1;
              seed = w.seed + 1;
              log = sent request default_rpc_timeout ∷ w.log;
            })
  unfolding make_call create
  make_call_first_answer w r rs e h t =
      ground (arith, going_by_count (w.clock w.reads) (w.clock (w.reads + 1)) 0)

  record Timed (clock : ℕ → ℕ) (late : ℕ) (rs : List Reply) (b : ExpoBackoff fl) (timeout : ℕ)
      (last : StatusCode) (w : World) : Type 0 where
    ends : late ≤ w.reads + length rs
    same_clock : w.clock ≡ clock

  exhausted_by_time :
      (start now retry_count : ℕ)
      → p.time_policy.interval * second < now - start
      → retries_exhausted start now retry_count p.count_policy p.time_policy ≡ true
  unfolding retries_exhausted
  exhausted_by_time start now retry_count h = ground arith

  -- With or without a limit on the retries, a call ends by the retry time: if the clock has passed
  -- it from the reading `late` on, the server need answer at most `late` times. A status that it
  -- returns is none to retry.
  pub make_call_times_out :
      (w : World) (late : ℕ)
      → ((n : ℕ) → late ≤ n → p.time_policy.interval * second < w.clock n - w.clock w.reads)
      → late ≤ length w.replies
      → Ends (λ r w'. ¬ IsRetried r.status.error_code) (λ e w'. Unit) (make_call fl request p w)
  unfolding make_call
  make_call_times_out w late passed enough =
      Loop.attempts-Holds fl request p _ (Timed w.clock late) _ _ ⊥
        (record {
          give_up = λ rs b timeout last w' h e. tt;
          no_answer = λ b timeout last w' h e. ground (
            arith,
            passed w'.reads,
            exhausted_by_time (w.clock w.reads) (w'.clock w'.reads) b.attempt,
          );
          answer = λ r rs b timeout last w' h e f. ground arith;
          retry = λ r rs b timeout timeout' last w' h e f. ground arith;
        })
        w.replies _ _ _ _ (record { ends = omega arith; same_clock = refl })
