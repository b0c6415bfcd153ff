-- ===== src/Subscription/Receiver.antt =====
-- When a subscription of pubsuber/src/SubscriptionImpl.cpp has a receiver, and what the executor is
-- told of it.
use pubsuber.Base.{
  text, if◌then◌else◌, ◌≢◌, ◌≡◌, refl, ℕ, List, [], ◌∷◌, Bytes, Bool, true, false, Option, none,
  some, arith,
}
use pubsuber.Double.{Float}
use pubsuber.Io.{
  plain, StatusCode, Request, World, Outcome, returned, threw, blocked, terminated, ◌>>=◌, After,
  ensure_connected,
}
use pubsuber.Io.Rules.{Holds-bind, Holds-mono}
use pubsuber.Retriable.{CallResult, make_call}
use pubsuber.Executor.{register, add_iterator}
use pubsuber.Subscription.{
  Shared, call_subscription, on_exists, exists, set_receiver, activate, on_found, receive,
}

module _ (fl : Float) (Callback : Type 0) where
  -- The receiver, the executor and the name are what they were.
  abbrev pub Same : Shared fl Callback → Shared fl Callback → Type 0
  Same s s' =
      (s'.executor ≡ s.executor)
      × (s'.subscription.receiver_active ≡ s.subscription.receiver_active)
      × (s'.subscription.full_name ≡ s.subscription.full_name)
      × (s'.alive ≡ s.alive)

  call-Same :
      (request : Request) (s : Shared fl Callback)
      → After (λ r s'. Same s s') (λ e s'. Same s s') (call_subscription fl Callback request s)
  unfolding call_subscription
  call-Same request s =
      go ((ensure_connected >>= λ c. make_call fl request s.subscription.policies) s.world)
    where
      go :
          (o : Outcome World CallResult)
          → After
              (λ r s'. Same s s')
              (λ e s'. Same s s')
              (elim o [
                | returned r w ↦ returned r (record s { world = w })
                | threw e w ↦ threw e (record s { world = w })
                | blocked ↦ blocked
                | terminated ↦ terminated
              ])
      go (returned r w) = (refl, refl, refl, refl)
      go (threw e w) = (refl, refl, refl, refl)
      go blocked = tt
      go terminated = tt

  on_exists-Same :
      (r : CallResult) (s : Shared fl Callback)
      → After (λ b s'. Same s s') (λ e s'. Same s s') (on_exists fl Callback r s)
  unfolding on_exists
  on_exists-Same r s =
      elim r.status.error_code
        as (λ c.
          After (λ b s'. Same s s') (λ e s'. Same s s')
            (on_exists fl Callback (record r { status = record r.status { error_code = c } }) s)) [
              | StatusCode.ok ↦ (refl, refl, refl, refl)
              | StatusCode.not_found ↦ (refl, refl, refl, refl)
              | StatusCode.deadline_exceeded ↦ (refl, refl, refl, refl)
              | StatusCode.unavailable ↦ (refl, refl, refl, refl)
              | StatusCode.other n ↦ (refl, refl, refl, refl)
            ]

  exists-Same :
      (s : Shared fl Callback)
      → After (λ b s'. Same s s') (λ e s'. Same s s') (exists fl Callback s)
  unfolding exists
  exists-Same s =
      Holds-bind (λ r s'. Same s s') (λ b s'. Same s s') (λ e s'. Same s s') (Unit {0})
        (call_subscription fl Callback (Request.get_subscription s.subscription.full_name))
        (on_exists fl Callback) s (call-Same _ s)
        (λ r s' h.
          Holds-mono (λ b s''. Same s' s'') _ (λ e s''. Same s' s'') _ (Unit {0})
            (on_exists fl Callback r s') (on_exists-Same r s') (λ b s'' k. ground arith)
            (λ e s'' k. ground arith))

  -- What `Receive` has done when it returns: the subscription had no receiver, the executor lives and
  -- was given the callback under the subscription's name.
  abbrev pub Received : Option Callback → List ℕ → Shared fl Callback → Shared fl Callback → Type 0
  Received cb raw s s' =
      (s.subscription.receiver_active ≡ false)
      × (s.alive ≡ true)
      × (s'.subscription.receiver_active ≡ true)
      × (s'.subscription.full_name ≡ s.subscription.full_name)
      × (s.subscription.full_name ≢ [])
      × ((callback : Callback) × (cb ≡ some callback)
          × (s'.executor ≡ register fl Callback s.subscription.full_name callback raw s.executor))

  activate-Received :
      (cb : Option Callback) (raw : List ℕ) (s : Shared fl Callback)
      → s.subscription.receiver_active ≡ false
      → s.alive ≡ true
      → After (λ t s'. Received cb raw s s') (λ e s'. Same s s') (activate fl Callback cb raw s)
  unfolding activate add_iterator
  activate-Received none raw s idle alive = (refl, refl, refl, refl)
  activate-Received (some callback) raw s idle alive = go s.subscription.full_name refl
    where
      go :
          (n : Bytes)
          → s.subscription.full_name ≡ n
          → After
              (λ t s'. Received (some callback) raw s s')
              (λ e s'. Same s s')
              (elim (add_iterator fl Callback n (some callback) raw s.executor) [
                | returned _ e ↦
                    returned tt (set_receiver fl Callback true (record s { executor = e }))
                | threw x e ↦ threw x (record s { executor = e })
                | blocked ↦ blocked
                | terminated ↦ terminated
              ])
      go [] e = (refl, refl, refl, refl)
      go (c ∷ n) e = (idle, alive, refl, refl, λ e'. cc, (callback, refl, rw e refl))

  on_found-Received :
      (cb : Option Callback) (raw : List ℕ) (b : Bool) (s : Shared fl Callback)
      → After (λ t s'. Received cb raw s s') (λ e s'. Same s s') (on_found fl Callback cb raw b s)
  unfolding on_found
  on_found-Received cb raw false s = (refl, refl, refl, refl)
  on_found-Received cb raw true s = go s.subscription.receiver_active s.alive refl refl
    where
      go :
          (r a : Bool)
          → s.subscription.receiver_active ≡ r
          → s.alive ≡ a
          → After
              (λ t s'. Received cb raw s s')
              (λ e s'. Same s s')
              (if r
                then threw
                    (plain (text "Pubsuber: Subscription object supports only one receiver"))
                    s
                else (if a
                    then activate fl Callback cb raw s
                    else threw (plain (text "Pubsuber: Executor object is not set")) s))
      go true a e e' = (refl, refl, refl, refl)
      go false true e e' = activate-Received cb raw s e e'
      go false false e e' = (refl, refl, refl, refl)

  -- A call of `Receive` that returns has registered the callback with the executor once and set the
  -- flag; the subscription had no receiver before, its name is not empty and the callback is set. A
  -- call that throws leaves the executor and the flag as they were.
  pub receive-Received :
      (cb : Option Callback) (raw : List ℕ) (s : Shared fl Callback)
      → After (λ t s'. Received cb raw s s') (λ e s'. Same s s') (receive fl Callback cb raw s)
  unfolding receive
  receive-Received cb raw s =
      Holds-bind (λ b s'. Same s s') (λ t s'. Received cb raw s s') (λ e s'. Same s s') (Unit {0})
        (exists fl Callback) (on_found fl Callback cb raw) s (exists-Same s)
        (λ b s' h.
          Holds-mono (λ t s''. Received cb raw s' s'') _ (λ e s''. Same s' s'') _ (Unit {0})
            (on_found fl Callback cb raw b s') (on_found-Received cb raw b s')
            (λ t s'' k. ground arith) (λ e s'' k. ground arith))
