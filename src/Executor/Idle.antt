-- ===== src/Executor/Idle.antt =====
-- The threads of pubsuber/src/Executor.cpp while they have nothing to do.
use pubsuber.Base.{
  ℕ, suc, ◌≡◌, refl, sym, ◌∙◌, ap, subst, ◌∷◌, Bytes, Bool, true, false, ◌&&◌, ◌||◌, not,
  if◌then◌else◌, length, ◌==◌, arith,
}
use pubsuber.Containers.{Map}
use pubsuber.Double.{Float}
use pubsuber.Io.{Outcome, returned, Act, ◌>>=◌, ◌>>◌, Holds, Ends, ensure_connected}
use pubsuber.Io.Rules.{Holds-bind}
use pubsuber.Message.{MessageImpl}
use pubsuber.ModAckIterator.Requests.{Session}
use pubsuber.ThreadDataBlock.{erase_removed, remove_from_active}
use pubsuber.Executor.{Puller, Executor}
use pubsuber.Executor.Rounds.{
  Running, has_no_acks, after_ack_wait, work_on_acks, work_on_pulls, sleep_or_default, begun_acks,
  report_keep_alive_metric, unless_stopped, has_no_pulls, without_removed_pulls, ack_round,
  after_wait, pull_round, ack_thread_func, pull_thread_func,
}

module _ (fl : Float) (Callback : Type 0) where
  -- What the other threads do while a thread waits.
  abbrev pub Wait : Type 0
  Wait = ℕ → Executor fl Callback → Executor fl Callback × Bool

  -- They tell the threads to stop.
  pub record TellsToStop (wait : Wait) : Type 0 where
    pub acks : (ms : ℕ) (e : Executor fl Callback) → (wait ms e).0.ack_thread.need_stop ≡ true
    pub pulls : (ms : ℕ) (e : Executor fl Callback) → (wait ms e).0.pull_thread.need_stop ≡ true

  -- The thread ends, and ends since it was told to.
  abbrev pub AckStops : Outcome (Running fl Callback) (Unit {0}) → Type 0
  AckStops = Ends (λ u r. r.executor.ack_thread.need_stop ≡ true) (λ e r. ⊥)

  abbrev pub PullStops : Outcome (Running fl Callback) (Unit {0}) → Type 0
  PullStops = Ends (λ u r. r.executor.pull_thread.need_stop ≡ true) (λ e r. ⊥)

  stopped_acks :
      (wait : Wait) (n : ℕ) (state : ℕ × Bool) (r : Running fl Callback)
      → r.executor.ack_thread.need_stop ≡ true
      → AckStops (ack_thread_func fl Callback wait (suc n) state r)
  unfolding ack_thread_func
  stopped_acks wait n state r e = rw (e, Holds) refl

  stopped_pulls :
      (run : Callback → MessageImpl → Act (Session fl) (Unit {0})) (wait : Wait) (n : ℕ)
      (r : Running fl Callback)
      → r.executor.pull_thread.need_stop ≡ true
      → PullStops (pull_thread_func fl Callback run wait (suc n) r)
  unfolding pull_thread_func
  stopped_pulls run wait n r e = rw (e, Holds) refl

  if_true : {A : Type 0} (x b : Bool) (o p : A) → b ≡ true → (if x || b then o else p) ≡ o
  if_true x b o p e = ground arith

  -- The thread begins a round with nothing to do.
  abbrev pub IsIdle : Bool → Running fl Callback → Type 0
  IsIdle need_sleep r =
      has_no_acks fl Callback need_sleep (begun_acks fl Callback r).executor ≡ true

  -- A round that waits.
  ack_round_idle :
      (wait : Wait) (sleep : ℕ) (need_sleep : Bool) (r : Running fl Callback)
      → IsIdle need_sleep r
      → ack_round fl Callback wait (sleep, need_sleep) r
        ≡ after_ack_wait fl Callback
            (sleep_or_default fl Callback sleep, need_sleep)
            (wait (sleep_or_default fl Callback sleep) (begun_acks fl Callback r).executor)
            (begun_acks fl Callback r)
  unfolding ack_round
  ack_round_idle wait sleep need_sleep r idle =
      ap
        (λ b.
          if b
          then after_ack_wait fl Callback (sleep_or_default fl Callback sleep, need_sleep)
              (wait (sleep_or_default fl Callback sleep) (begun_acks fl Callback r).executor)
              (begun_acks fl Callback r)
          else work_on_acks fl Callback (begun_acks fl Callback r))
        idle

  after_ack_wait_told :
      (state : ℕ × Bool) (woken : Executor fl Callback × Bool) (r : Running fl Callback)
      → woken.0.ack_thread.need_stop ≡ true
      → after_ack_wait fl Callback state woken r ≡ returned state (record r { executor = woken.0 })
  unfolding after_ack_wait
  after_ack_wait_told (sleep, need_sleep) (e, timeout) r h =
      if_true (not need_sleep && timeout) e.ack_thread.need_stop _ _ h

  ack_idle :
      (wait : Wait) (n sleep : ℕ) (need_sleep : Bool) (r : Running fl Callback)
      → TellsToStop wait
      → IsIdle need_sleep r
      → AckStops (ack_thread_func fl Callback wait (suc (suc n)) (sleep, need_sleep) r)
  unfolding ack_thread_func
  ack_idle wait n sleep need_sleep r told idle =
      go r.executor.ack_thread.need_stop refl (stopped_acks wait n)
    where
      ms : ℕ
      ms = sleep_or_default fl Callback sleep

      woken : Executor fl Callback × Bool
      woken = wait ms (begun_acks fl Callback r).executor

      waited :
          ack_round fl Callback wait (sleep, need_sleep) r
          ≡ returned (ms, need_sleep) (record (begun_acks fl Callback r) { executor = woken.0 })
      waited =
          ack_round_idle wait sleep need_sleep r idle
          ∙ after_ack_wait_told (ms, need_sleep) woken (begun_acks fl Callback r)
              (told.acks ms (begun_acks fl Callback r).executor)

      go :
          (b : Bool)
          → r.executor.ack_thread.need_stop ≡ b
          → ((state : ℕ × Bool) (r' : Running fl Callback)
              → r'.executor.ack_thread.need_stop ≡ true
              → AckStops (ack_thread_func fl Callback wait (suc n) state r'))
          → AckStops (
              if b
              then returned tt r
              else (ack_round fl Callback wait (sleep, need_sleep)
                    >>= ack_thread_func fl Callback wait (suc n))
                  r)
      go true e later = e
      go false e later =
          Holds-bind (λ state r'. r'.executor.ack_thread.need_stop ≡ true)
            (λ u r'. r'.executor.ack_thread.need_stop ≡ true) (λ x r'. ⊥) ⊥
            (ack_round fl Callback wait (sleep, need_sleep))
            (ack_thread_func fl Callback wait (suc n)) r
            (rw waited (told.acks ms (begun_acks fl Callback r).executor))
            (λ state r' h. later state r' h)

  module _ (run : Callback → MessageImpl → Act (Session fl) (Unit {0})) (wait : Wait) where
    abbrev Stopped : Outcome (Running fl Callback) (Unit {0}) → Type 0
    Stopped = Ends (λ u r. r.executor.pull_thread.need_stop ≡ true) (λ x r. ⊥)

    unless_stopped-Stopped :
        (timeout : Bool) (s : Running fl Callback)
        → s.executor.pull_thread.need_stop ≡ true
        → Stopped (unless_stopped fl Callback run wait timeout s)
    unfolding unless_stopped
    unless_stopped-Stopped timeout s h =
        subst Stopped
          (sym (
            if_true timeout s.executor.pull_thread.need_stop (returned tt s)
              (work_on_pulls fl Callback run wait s) h))
          h

    after_wait-Stopped :
        (woken : Executor fl Callback × Bool) (r : Running fl Callback)
        → woken.0.pull_thread.need_stop ≡ true
        → Stopped (after_wait fl Callback run wait woken r)
    unfolding after_wait ensure_connected
    after_wait-Stopped (e, timeout) r h = unless_stopped-Stopped timeout _ h

    pull_round-Stopped :
        (r : Running fl Callback)
        → TellsToStop wait
        → has_no_pulls fl Callback (without_removed_pulls fl Callback r).executor ≡ true
        → Stopped (pull_round fl Callback run wait r)
    unfolding pull_round
    pull_round-Stopped r told idle =
        let r' : Running fl Callback = without_removed_pulls fl Callback r in
        subst
          (λ b. Stopped (
            if b
            then after_wait fl Callback run wait (wait 100 r'.executor) r'
            else work_on_pulls fl Callback run wait r'))
          (sym idle) (after_wait-Stopped (wait 100 r'.executor) r' (told.pulls 100 r'.executor))

  pull_idle :
      (run : Callback → MessageImpl → Act (Session fl) (Unit {0})) (wait : Wait) (n : ℕ)
      (r : Running fl Callback)
      → TellsToStop wait
      → has_no_pulls fl Callback (without_removed_pulls fl Callback r).executor ≡ true
      → PullStops (pull_thread_func fl Callback run wait (suc (suc n)) r)
  unfolding pull_thread_func
  pull_idle run wait n r told idle =
      go r.executor.pull_thread.need_stop refl (stopped_pulls run wait n)
    where
      go :
          (b : Bool)
          → r.executor.pull_thread.need_stop ≡ b
          → ((r' : Running fl Callback)
              → r'.executor.pull_thread.need_stop ≡ true
              → PullStops (pull_thread_func fl Callback run wait (suc n) r'))
          → PullStops (
              if b
              then returned tt r
              else (pull_round fl Callback run wait
                    >> pull_thread_func fl Callback run wait (suc n))
                  r)
      go true e later = e
      go false e later =
          Holds-bind (λ u r'. r'.executor.pull_thread.need_stop ≡ true)
            (λ u r'. r'.executor.pull_thread.need_stop ≡ true) (λ x r'. ⊥) ⊥
            (pull_round fl Callback run wait) (λ u. pull_thread_func fl Callback run wait (suc n)) r
            (pull_round-Stopped run wait r told idle) (λ u r' h. later r' h)

  -- If both threads have nothing to do and wait, and the other threads tell them to stop meanwhile, then
  -- both loops end, within two tests of the flag.
  pub idle_threads_end :
      (run : Callback → MessageImpl → Act (Session fl) (Unit {0})) (wait : Wait) (n sleep : ℕ)
      (need_sleep : Bool) (r : Running fl Callback)
      → TellsToStop wait
      → IsIdle need_sleep r
      → has_no_pulls fl Callback (without_removed_pulls fl Callback r).executor ≡ true
      → AckStops (ack_thread_func fl Callback wait (suc (suc n)) (sleep, need_sleep) r)
        × PullStops (pull_thread_func fl Callback run wait (suc (suc n)) r)
  idle_threads_end run wait n sleep need_sleep r told idle_acks idle_pulls =
      (ack_idle wait n sleep need_sleep r told idle_acks, pull_idle run wait n r told idle_pulls)

  -- The wait of the acknowledgement thread runs out, and no other thread did anything.
  abbrev pub RunsOut : Wait → Type 0
  RunsOut wait = (ms : ℕ) (e : Executor fl Callback) → wait ms e ≡ (e, true)

  -- `r'` follows on `r` after a round in which nothing happened: what was registered still waits.
  pub record StillWaits (r r' : Running fl Callback) : Type 0 where
    pub same_input : r'.executor.ack_thread.input_iterators ≡ r.executor.ack_thread.input_iterators
    pub nothing_sent : r'.world ≡ r.world
    pub idle : IsIdle false r'

  not_zero : (n : ℕ) (b : Bool) → (suc n == 0 && b) ≡ false
  not_zero n b = ground arith

  pull_round_busy :
      (run : Callback → MessageImpl → Act (Session fl) (Unit {0})) (wait : Wait)
      (r : Running fl Callback) (p : Bytes × Puller fl Callback) (ps : Map (Puller fl Callback))
      → r.executor.pull_thread.input_iterators ≡ p ∷ ps
      → pull_round fl Callback run wait r
        ≡ work_on_pulls fl Callback run wait (without_removed_pulls fl Callback r)
  unfolding pull_round remove_from_active
  pull_round_busy run wait r p ps e =
      let r' : Running fl Callback = without_removed_pulls fl Callback r in
      let busy : has_no_pulls fl Callback r'.executor ≡ false =
        ap (λ i. length i == 0 && length r'.executor.pull_thread.active_iterators == 0) e
        ∙ not_zero (length ps) (length r'.executor.pull_thread.active_iterators == 0) in
      ap
        (λ b.
          if b
          then after_wait fl Callback run wait (wait 100 r'.executor) r'
          else work_on_pulls fl Callback run wait r')
        busy

  -- An idle acknowledgement thread whose wait runs out does not merge the iterators that were registered:
  -- it sends nothing and is idle again with the same input, so that only another notification helps. A
  -- pull thread with an iterator in its input does not wait: it goes on to its work, which merges.
  pub ack_round-StillWaits :
      (run : Callback → MessageImpl → Act (Session fl) (Unit {0})) (wait : Wait) (sleep : ℕ)
      (r : Running fl Callback) (p : Bytes × Puller fl Callback) (ps : Map (Puller fl Callback))
      → RunsOut wait
      → IsIdle false r
      → r.executor.pull_thread.input_iterators ≡ p ∷ ps
      → ((sleep' : ℕ) × (r' : Running fl Callback) × (ack_round fl Callback wait (sleep, false) r
            ≡ returned (sleep', false) r')
          × StillWaits r r')
        × (pull_round fl Callback run wait r
            ≡ work_on_pulls fl Callback run wait (without_removed_pulls fl Callback r))
  unfolding after_ack_wait report_keep_alive_metric remove_from_active erase_removed
  ack_round-StillWaits run wait sleep r p ps out idle e =
      let ms : ℕ = sleep_or_default fl Callback sleep in
      let r' : Running fl Callback = begun_acks fl Callback r in
      (
        (
          ms,
          r',
          ack_round_idle wait sleep false r idle
              ∙ ap (λ woken. after_ack_wait fl Callback (ms, false) woken r') (out ms r'.executor),
          record { same_input = refl; nothing_sent = refl; idle = idle },
        ),
        pull_round_busy run wait r p ps e,
      )
