-- ===== src/Subscription/QuickStop.antt =====
-- A subscription of pubsuber/src/SubscriptionImpl.cpp that is stopped right after `Receive`.
use pubsuber.Base.{
  text, length, subst, sym, if◌then◌else◌, ◌≡◌, refl, ℕ, List, Bytes, Bool, true, false, Option,
  some, ◌&&◌,
}
use pubsuber.Double.{Float}
use pubsuber.Io.{plain, returned, threw, ◌>>=◌, After}
use pubsuber.Io.Rules.{Holds-bind, Holds-mono}
use pubsuber.Containers.{lookup}
use pubsuber.ThreadDataBlock.Turns.{turn, turn-quick_stop}
use pubsuber.Executor.{Puller, Executor, register, remove_iterator}
use pubsuber.Subscription.{Shared, receive, deactivate, stop}
use pubsuber.Subscription.Receiver.{Received, receive-Received}

module _ (fl : Float) (Callback : Type 0) where
  -- The callback is active on the pull thread after the thread's next turn.
  abbrev pub StillActive : Option Callback → Shared fl Callback → Shared fl Callback → Type 0
  StillActive cb s s' =
      (p : Puller fl Callback) × (cb ≡ some p.callback)
      × (lookup s.subscription.full_name (turn s'.executor.pull_thread).active_iterators ≡ some p)

  -- What `AddIterator` puts on the pull thread.
  abbrev puller : Callback → Shared fl Callback → Puller fl Callback
  puller callback s = record {
    iterator = record {
      subscription_name = s.subscription.full_name;
      max_message_prefetch = s.executor.max_prefetch;
    };
    callback = callback;
    ack_iterator = length s.executor.store;
  }

  still-active :
      (callback : Callback) (raw : List ℕ) (s : Shared fl Callback) (n : Bytes)
      (e : Executor fl Callback)
      → n ≡ s.subscription.full_name
      → e ≡ register fl Callback s.subscription.full_name callback raw s.executor
      → lookup s.subscription.full_name
          (turn (remove_iterator fl Callback n e).pull_thread).active_iterators
        ≡ some (puller callback s)
  unfolding register remove_iterator
  still-active callback raw s n e named registered =
      subst
        (λ n.
          lookup s.subscription.full_name
            (turn (remove_iterator fl Callback n e).pull_thread).active_iterators
          ≡ some (puller callback s))
        (sym named)
        (subst
          (λ e.
            lookup s.subscription.full_name
              (turn
                (remove_iterator fl Callback s.subscription.full_name
                  e).pull_thread).active_iterators
            ≡ some (puller callback s))
          (sym registered)
          (turn-quick_stop s.subscription.full_name (puller callback s) s.executor.pull_thread))

  stop-After :
      (cb : Option Callback) (raw : List ℕ) (s s' : Shared fl Callback)
      → Received fl Callback cb raw s s'
      → After
          (λ t s''. (s''.subscription.receiver_active ≡ false) × StillActive cb s s'')
          (λ e s''. Unit)
          (stop fl Callback s')
  unfolding stop
  stop-After cb raw s s' h = go (s'.alive && s'.subscription.receiver_active)
    where
      go :
          (b : Bool)
          → After
              (λ t s''. (s''.subscription.receiver_active ≡ false) × StillActive cb s s'')
              (λ e s''. Unit)
              (if b
                then returned tt (deactivate fl Callback s')
                else threw (plain (text "Executor object is not set")) s')
      go true =
          let (callback, given, registered) = h.5 in
          (
            refl,
            (
              puller callback s,
              given,
              still-active callback raw s s'.subscription.full_name s'.executor h.3 registered,
            ),
          )
      go false = tt

  -- A subscription that is stopped right after `Receive`, before the pull thread's next turn, is active
  -- on the pull thread after that turn: with the callback of `Receive`.
  pub receive-stop :
      (cb : Option Callback) (raw : List ℕ) (s : Shared fl Callback)
      → After
          (λ t s'. (s'.subscription.receiver_active ≡ false) × StillActive cb s s')
          (λ e s'. Unit)
          ((receive fl Callback cb raw >>= λ t. stop fl Callback) s)
  receive-stop cb raw s =
      Holds-bind _ _ _ (Unit {0}) (receive fl Callback cb raw) (λ t. stop fl Callback) s
        (Holds-mono _ (λ t s'. Received fl Callback cb raw s s') _ (λ e s'. Unit) (Unit {0})
          (receive fl Callback cb raw s) (receive-Received fl Callback cb raw s) (λ t s' h. h)
          (λ e s' h. tt))
        (λ t s' h. stop-After cb raw s s' h)
