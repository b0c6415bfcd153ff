-- ===== src/Retriable.antt =====
-- pubsuber/src/Retriable.h: calls of the service with retries, under the policies of
-- pubsuber/include/pubsuber/Pubsuber.h.
pub mod Loop
pub mod Attempts
pub mod Spends
pub mod Answers
pub mod Meanings
pub mod Namer
mod Tests
use pubsuber.Base.{
  ℕ, ◌+◌, ◌-◌, ◌*◌, ◌^◌, List, [], ◌∷◌, Bool, true, false, Option, none, some, ◌&&◌, ◌||◌, ltb,
  if◌then◌else◌,
}
use pubsuber.Double.{Float}
use pubsuber.ExpoBackoff.{ExponentialBackoffPolicy, ExpoBackoff, create, delay}
use pubsuber.Io.{
  StatusCode, Status, Exception, gave_up, from_status, Request, Response, Reply, sent, slept, World,
  Outcome, returned, threw, blocked, Act, read_clock,
}

pub record RetryCountPolicy : Type 0 where
  pub count : ℕ

-- In seconds.
pub record MaxRetryTimePolicy : Type 0 where
  pub interval : ℕ

abbrev pub second : ℕ
second = 10 ^ 9

-- Clock readings are nanoseconds.
unfoldable pub retries_exhausted : ℕ → ℕ → ℕ → RetryCountPolicy → MaxRetryTimePolicy → Bool
retries_exhausted start now retry_count count_policy time_policy =
    (ltb 0 count_policy.count && ltb count_policy.count retry_count)
    || ltb (time_policy.interval * second) (now - start)

-- In seconds.
abbrev pub default_rpc_timeout : ℕ
default_rpc_timeout = 20

-- What a call gives back: its status, the time at which its last attempt began, and the response.
pub record CallResult : Type 0 where
  pub status : Status
  pub next : ℕ
  pub response : Response

-- The cases of the `switch` over the status: the timeout of the next attempt, or `none` where the
-- status is returned.
abbrev pub retry_timeout : StatusCode → ℕ → Option ℕ
retry_timeout StatusCode.deadline_exceeded timeout = some (timeout * 2)
retry_timeout StatusCode.unavailable timeout = some timeout
retry_timeout StatusCode.ok timeout = none
retry_timeout StatusCode.not_found timeout = none
retry_timeout (StatusCode.other n) timeout = none

module _ (fl : Float) where
  pub record Policies : Type 0 where
    pub count_policy : RetryCountPolicy
    pub time_policy : MaxRetryTimePolicy
    pub backoff_policy : ExponentialBackoffPolicy fl

  abbrev pub gave_up_error : Policies → StatusCode → Exception
  gave_up_error p code = record {
    what = gave_up p.count_policy.count p.time_policy.interval;
    code = from_status code;
  }

  -- One attempt: the time at which it began, and the world once `r` answered.
  abbrev pub attempt_call : Request → ℕ → World → List Reply → ℕ × World
  attempt_call request timeout w rest =
      let (next, w') = read_clock w in
      (next, record w' { replies = rest; log = sent request timeout ∷ w'.log })

  abbrev pub sleep_for : ℕ → World → World
  sleep_for ms w = record w { log = slept ms ∷ w.log }

  -- The `while` loop of `make_call`, over the answers to come. `last` is the code of `status`. A clock
  -- reading is counted for each test of the loop, also where the number of retries decides it.
  unfoldable pub attempts :
      (request : Request) (p : Policies) (start : ℕ)
      → List Reply
      → ExpoBackoff fl
      → ℕ
      → StatusCode
      → Act World CallResult
  attempts request p start [] backoff timeout last w =
      let (now, w₁) = read_clock w in
      if retries_exhausted start now backoff.attempt p.count_policy p.time_policy
      then threw (gave_up_error p last) w₁
      else blocked
  attempts request p start (r ∷ rs) backoff timeout last w =
      let (now, w₁) = read_clock w in
      let (next, w₂) = attempt_call request timeout w₁ rs in
      let (ms, backoff') = delay fl backoff in
      elim (retries_exhausted start now backoff.attempt p.count_policy p.time_policy) [
        | true ↦ threw (gave_up_error p last) w₁
        | false ↦ elim (retry_timeout r.status.error_code timeout) [
          | some timeout' ↦
              attempts request p start rs backoff' timeout' r.status.error_code (sleep_for ms w₂)
          | none ↦ returned (record { status = r.status; next = next; response = r.response }) w₂
        ]
      ]

  -- `make_call` with the default timeout, which every caller under pubsuber/src uses.
  unfoldable pub make_call : Request → Policies → Act World CallResult
  unfolding attempts
  make_call request p w =
      let (start, w₁) = read_clock w in
      attempts request p start w.replies (create fl p.backoff_policy w.seed) default_rpc_timeout
        StatusCode.ok (record w₁ { seed = w.seed + 1 })
