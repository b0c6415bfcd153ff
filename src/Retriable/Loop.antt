-- ===== src/Retriable/Loop.antt =====
-- The invariant rule for the retry loop of pubsuber/src/Retriable.h.
use pubsuber.Base.{
  ℕ, ◌≡◌, List, [], ◌∷◌, true, false, none, some, inl, inr, Option-cases, Bool-cases,
}
use pubsuber.Double.{Float}
use pubsuber.ExpoBackoff.{ExpoBackoff, delay}
use pubsuber.Io.{StatusCode, Exception, Request, Reply, World, Holds, read_clock}
use pubsuber.Retriable.{
  Policies, CallResult, retries_exhausted, retry_timeout, gave_up_error, attempt_call, sleep_for,
  attempts,
}

module _ (fl : Float) (request : Request) (p : Policies fl) (start : ℕ)
    (I : List Reply → ExpoBackoff fl → ℕ → StatusCode → World → Type 0)
    (P : CallResult → World → Type 0) (Q : Exception → World → Type 0) (B : Type 0) where
  abbrev pub Exhausted : ExpoBackoff fl → World → Type 0
  Exhausted b w =
      retries_exhausted start (read_clock w).0 b.attempt p.count_policy p.time_policy ≡ true

  abbrev pub Going : ExpoBackoff fl → World → Type 0
  Going b w =
      retries_exhausted start (read_clock w).0 b.attempt p.count_policy p.time_policy ≡ false

  -- What the four ways through one round of the loop have to show.
  pub record Rule : Type 0 where
    pub give_up :
        (rs : List Reply) (b : ExpoBackoff fl) (timeout : ℕ) (last : StatusCode) (w : World)
        → I rs b timeout last w
        → Exhausted b w
        → Q (gave_up_error fl p last) (read_clock w).1
    pub no_answer :
        (b : ExpoBackoff fl) (timeout : ℕ) (last : StatusCode) (w : World)
        → I [] b timeout last w
        → Going b w
        → B
    pub answer :
        (r : Reply) (rs : List Reply) (b : ExpoBackoff fl) (timeout : ℕ) (last : StatusCode)
        (w : World)
        → I (r ∷ rs) b timeout last w
        → Going b w
        → retry_timeout r.status.error_code timeout ≡ none
        → let (next, w') = attempt_call fl request timeout (read_clock w).1 rs in
          P (record { status = r.status; next = next; response = r.response }) w'
    pub retry :
        (r : Reply) (rs : List Reply) (b : ExpoBackoff fl) (timeout timeout' : ℕ)
        (last : StatusCode) (w : World)
        → I (r ∷ rs) b timeout last w
        → Going b w
        → retry_timeout r.status.error_code timeout ≡ some timeout'
        → let (ms, b') = delay fl b in
          let (next, w') = attempt_call fl request timeout (read_clock w).1 rs in
          I rs b' timeout' r.status.error_code (sleep_for fl ms w')

  pub attempts-Holds :
      Rule
      → (rs : List Reply) (b : ExpoBackoff fl) (timeout : ℕ) (last : StatusCode) (w : World)
      → I rs b timeout last w
      → Holds P Q B (attempts fl request p start rs b timeout last w)
  unfolding attempts
  attempts-Holds rule [] b timeout last w h =
      elim (Bool-cases
        (retries_exhausted start (read_clock w).0 b.attempt p.count_policy p.time_policy)) [
          | inl e ↦ rw e (rule.give_up [] b timeout last w h e)
          | inr e ↦ rw e (rule.no_answer b timeout last w h e)
        ]
  attempts-Holds rule (r ∷ rs) b timeout last w h =
      elim (Bool-cases
        (retries_exhausted start (read_clock w).0 b.attempt p.count_policy p.time_policy)) [
          | inl e ↦ rw (e, Holds) (rule.give_up (r ∷ rs) b timeout last w h e)
          | inr e ↦ elim (Option-cases (retry_timeout r.status.error_code timeout)) [
            | inl f ↦ rw (e, f, Holds) (rule.answer r rs b timeout last w h e f)
            | inr (t, f) ↦
                rw (e, f, Holds)
                  (attempts-Holds rule rs (delay fl b).1 t r.status.error_code _
                    (rule.retry r rs b timeout t last w h e f))
          ]
        ]
