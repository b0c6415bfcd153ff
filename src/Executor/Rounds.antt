-- ===== src/Executor/Rounds.antt =====
-- The threads of pubsuber/src/Executor.cpp: one round of the loop of `PullThreadFunc` and of
-- `AckThreadFunc`, with `Pull` and `ProcessModAcks` of the executor.
use pubsuber.Base.{
  ℕ, zero, suc, ◌+◌, ◌-◌, ◌/◌, List, [], ◌∷◌, Bytes, Bool, false, not, ◌&&◌, ◌||◌, none, some, ltb,
  ◌==◌, if◌then◌else◌, length, min, get_elem?,
}
use pubsuber.Double.{Float}
use pubsuber.Io.{
  World, Outcome, returned, threw, blocked, terminated, Act, ◌>>=◌, ◌>>◌, pure, read_clock,
  ensure_connected, is_caught,
}
use pubsuber.Message.{MessageImpl}
use pubsuber.ModAckIterator.{
  ModAckIterator, keep_alive_count, input_count, merge_input, so_many_milliseconds,
}
use pubsuber.ModAckIterator.Requests.{Session}
use pubsuber.ModAckIterator.Requests
use pubsuber.PullIterator
use pubsuber.ThreadDataBlock.{merge_input_to_active, remove_from_active}
use pubsuber.Executor.{Puller, Executor}

-- The store with another element at a place of it.
unfoldable pub put : {A : Type 0} → ℕ → A → List A → List A
put place a [] = []
put zero a (x ∷ xs) = a ∷ xs
put (suc place) a (x ∷ xs) = x ∷ put place a xs

module _ (fl : Float) (Callback : Type 0) where
  -- `metrics_sinks` is whether the user's sink is set, and `metrics` are the sizes that it was given,
  -- the last one first.
  pub record Running : Type 0 where
    pub executor : Executor fl Callback
    pub world : World
    pub metrics_sinks : Bool
    pub metrics : List ℕ

  -- A call of an iterator's operation. The places that the maps hold are places of the store.
  unfoldable pub on_iterator : {A : Type 0} → ℕ → Act (Session fl) A → Act Running A
  unfolding put
  on_iterator place call r = elim (get_elem? r.executor.store place) [
    | none ↦ terminated
    | some it ↦ elim (call (record { it = it; world = r.world })) [
      | returned a s ↦ returned a (record r {
        executor = record r.executor { store = put place s.it r.executor.store };
        world = s.world;
      })
      | threw e s ↦ threw e (record r {
        executor = record r.executor { store = put place s.it r.executor.store };
        world = s.world;
      })
      | blocked ↦ blocked
      | terminated ↦ terminated
    ]
  ]

  abbrev pub connect : Act Running Bool
  connect r = elim (ensure_connected r.world) [
    | returned c w ↦ returned c (record r { world = w })
    | threw e w ↦ threw e (record r { world = w })
    | blocked ↦ blocked
    | terminated ↦ terminated
  ]

  -- `ForEachActive` of `ProcessModAcks`; `sleep` is the least time so far.
  unfoldable pub process_each : List (Bytes × ℕ) → ℕ → Act Running ℕ
  unfolding on_iterator
  process_each [] sleep = pure sleep
  process_each ((name, place) ∷ active) sleep =
      on_iterator place (Requests.process_mod_acks fl) >>= λ ms. process_each active (min ms sleep)

  -- `Executor::ProcessModAcks`.
  unfoldable pub process_mod_acks : Act Running ℕ
  unfolding process_each
  process_mod_acks r = process_each r.executor.ack_thread.active_iterators so_many_milliseconds r

  -- `MergeInput` of each active iterator.
  unfoldable pub merge_each : List (Bytes × ℕ) → List (ModAckIterator fl) → List (ModAckIterator fl)
  unfolding put
  merge_each [] store = store
  merge_each ((name, place) ∷ active) store = elim (get_elem? store place) [
    | none ↦ merge_each active store
    | some it ↦ merge_each active (put place (merge_input fl it) store)
  ]

  -- The sum of a count over the active iterators.
  unfoldable pub count_each :
      (ModAckIterator fl → ℕ) → List (Bytes × ℕ) → List (ModAckIterator fl) → ℕ
  count_each count [] store = 0
  count_each count ((name, place) ∷ active) store = elim (get_elem? store place) [
    | none ↦ count_each count active store
    | some it ↦ count it + count_each count active store
  ]

  -- The block of `AckThreadFunc` that ends with the merge, after the wait.
  unfoldable pub merge_ack_input : Executor fl Callback → Executor fl Callback
  unfolding merge_each
  merge_ack_input e =
      let block = merge_input_to_active e.ack_thread in
      record e { ack_thread = block; store = merge_each block.active_iterators e.store }

  -- The variables `sleep` and `needSleep` after the `try` block. An exception that is not caught leaves
  -- the thread.
  unfoldable pub after_acks : Outcome Running ℕ → Outcome Running (ℕ × Bool)
  after_acks (returned sleep r) = returned (sleep, not (sleep == so_many_milliseconds)) r
  after_acks (threw e r) =
      if is_caught e then returned (so_many_milliseconds, false) r else terminated
  after_acks blocked = blocked
  after_acks terminated = terminated

  -- The part of the round after the wait.
  unfoldable pub work_on_acks : Act Running (ℕ × Bool)
  unfolding after_acks merge_ack_input process_mod_acks
  work_on_acks r =
      after_acks
        ((connect >>= λ c. process_mod_acks) (record r { executor = merge_ack_input r.executor }))

  -- Whether the acknowledgement thread has nothing to do but to wait.
  unfoldable pub has_no_acks : Bool → Executor fl Callback → Bool
  unfolding count_each
  has_no_acks need_sleep e =
      let active = e.ack_thread.active_iterators in
      need_sleep
      || (count_each (input_count fl) active e.store == 0
          && count_each (keep_alive_count fl) active e.store == 0)

  -- What follows the wait: `timeout` is its status.
  unfoldable pub after_ack_wait : ℕ × Bool → Executor fl Callback × Bool → Act Running (ℕ × Bool)
  unfolding work_on_acks
  after_ack_wait (sleep, need_sleep) (e, timeout) r =
      if (not need_sleep && timeout) || e.ack_thread.need_stop
      then returned (sleep, need_sleep) (record r { executor = e })
      else work_on_acks (record r { executor = e })

  -- `sleep` after the first test of the round.
  abbrev pub sleep_or_default : ℕ → ℕ
  sleep_or_default sleep = if sleep == so_many_milliseconds then 500 else sleep

  abbrev pub without_removed_acks : Running → Running
  without_removed_acks r = record r {
    executor = record r.executor { ack_thread = remove_from_active r.executor.ack_thread };
  }

  -- `ReportKeepAliveMetric`.
  unfoldable pub report_keep_alive_metric : ℕ → Running → Running
  report_keep_alive_metric count r = record r {
    metrics = if r.metrics_sinks then count ∷ r.metrics else r.metrics;
  }

  -- The part of the round before the lock is taken.
  abbrev pub begun_acks : Running → Running
  begun_acks r =
      let r' = without_removed_acks r in
      report_keep_alive_metric
        (count_each (keep_alive_count fl) r'.executor.ack_thread.active_iterators r'.executor.store)
        r'

  -- One round of the loop of `AckThreadFunc` that `_needStop` does not end. `wait ms` is what the other
  -- threads do while the thread waits, at most `ms` milliseconds long, and whether it timed out.
  unfoldable pub ack_round :
      (ℕ → Executor fl Callback → Executor fl Callback × Bool) → ℕ × Bool → Act Running (ℕ × Bool)
  unfolding work_on_acks has_no_acks after_ack_wait report_keep_alive_metric count_each
  ack_round wait (sleep, need_sleep) r =
      let e = (begun_acks r).executor in
      if has_no_acks need_sleep e
      then after_ack_wait (sleep_or_default sleep, need_sleep) (wait (sleep_or_default sleep) e)
          (begun_acks r)
      else work_on_acks (begun_acks r)

  -- `Pull` of each active iterator.
  unfoldable pub pull_each :
      (Callback → MessageImpl → Act (Session fl) (Unit {0}))
      → List (Bytes × Puller fl Callback)
      → Act Running (Unit {0})
  unfolding on_iterator
  pull_each run [] = pure tt
  pull_each run ((name, p) ∷ active) =
      on_iterator p.ack_iterator (PullIterator.pull fl p.iterator (run p.callback))
      >> pull_each run active

  -- What is left of `kLowPullLimit` in milliseconds after `us` microseconds.
  abbrev pub rest_of_pull : ℕ → ℕ
  rest_of_pull us = if ltb 250000 us then so_many_milliseconds else (250000 - us) / 1000

  abbrev pub clock : Act Running ℕ
  clock r = let (now, w) = read_clock r.world in returned now (record r { world = w })

  -- `Executor::Pull`. Its clock is read like the steady clock.
  unfoldable pub pull : (Callback → MessageImpl → Act (Session fl) (Unit {0})) → Act Running ℕ
  unfolding pull_each
  pull run r =
      (connect >>= λ c. clock >>= λ begin.
      pull_each run r.executor.pull_thread.active_iterators
      >> (clock >>= λ end. pure (rest_of_pull ((end - begin) / 1000))))
        r

  -- What follows the `try` block of `PullThreadFunc`: the sleep and, while the thread waits, the other
  -- threads. An exception that is not caught leaves the thread.
  unfoldable pub after_pull :
      (ℕ → Executor fl Callback → Executor fl Callback × Bool)
      → Outcome Running ℕ
      → Outcome Running (Unit {0})
  after_pull wait (returned sleep r) = returned tt (
      if sleep == so_many_milliseconds
      then r
      else record r { executor = (wait sleep r.executor).0 })
  after_pull wait (threw e r) = if is_caught e then returned tt r else terminated
  after_pull wait blocked = blocked
  after_pull wait terminated = terminated

  unfoldable pub work_on_pulls :
      (Callback → MessageImpl → Act (Session fl) (Unit {0}))
      → (ℕ → Executor fl Callback → Executor fl Callback × Bool)
      → Act Running (Unit {0})
  unfolding after_pull pull
  work_on_pulls run wait r = after_pull wait (
      pull run (record r {
        executor = record r.executor { pull_thread = merge_input_to_active r.executor.pull_thread };
      }))

  -- The test after the wait of an idle round.
  unfoldable pub unless_stopped :
      (Callback → MessageImpl → Act (Session fl) (Unit {0}))
      → (ℕ → Executor fl Callback → Executor fl Callback × Bool)
      → Bool
      → Act Running (Unit {0})
  unfolding work_on_pulls
  unless_stopped run wait timeout s =
      if timeout || s.executor.pull_thread.need_stop
      then returned tt s
      else work_on_pulls run wait s

  unfoldable pub after_wait :
      (Callback → MessageImpl → Act (Session fl) (Unit {0}))
      → (ℕ → Executor fl Callback → Executor fl Callback × Bool)
      → Executor fl Callback × Bool
      → Act Running (Unit {0})
  unfolding unless_stopped
  after_wait run wait (e, timeout) r =
      (connect >>= λ c. unless_stopped run wait timeout) (record r { executor = e })

  abbrev pub has_no_pulls : Executor fl Callback → Bool
  has_no_pulls e =
      length e.pull_thread.input_iterators == 0 && length e.pull_thread.active_iterators == 0

  abbrev pub without_removed_pulls : Running → Running
  without_removed_pulls r = record r {
    executor = record r.executor { pull_thread = remove_from_active r.executor.pull_thread };
  }

  -- One round of the loop of `PullThreadFunc`. `run` runs the user's callbacks.
  unfoldable pub pull_round :
      (Callback → MessageImpl → Act (Session fl) (Unit {0}))
      → (ℕ → Executor fl Callback → Executor fl Callback × Bool)
      → Act Running (Unit {0})
  unfolding after_wait work_on_pulls
  pull_round run wait r =
      let e = (without_removed_pulls r).executor in
      if has_no_pulls e
      then after_wait run wait (wait 100 e) (without_removed_pulls r)
      else work_on_pulls run wait (without_removed_pulls r)

  -- `AckThreadFunc` from the values of `sleep` and `needSleep`, for `rounds` rounds at most.
  unfoldable pub ack_thread_func :
      (ℕ → Executor fl Callback → Executor fl Callback × Bool)
      → ℕ
      → ℕ × Bool
      → Act Running (Unit {0})
  unfolding ack_round
  ack_thread_func wait zero state r = blocked
  ack_thread_func wait (suc rounds) state r =
      if r.executor.ack_thread.need_stop
      then returned tt r
      else (ack_round wait state >>= ack_thread_func wait rounds) r

  -- `PullThreadFunc`, for `rounds` rounds at most.
  unfoldable pub pull_thread_func :
      (Callback → MessageImpl → Act (Session fl) (Unit {0}))
      → (ℕ → Executor fl Callback → Executor fl Callback × Bool)
      → ℕ
      → Act Running (Unit {0})
  unfolding pull_round
  pull_thread_func run wait zero r = blocked
  pull_thread_func run wait (suc rounds) r =
      if r.executor.pull_thread.need_stop
      then returned tt r
      else (pull_round run wait >> pull_thread_func run wait rounds) r
