-- ===== src/ModAckIterator/Concurrent.antt =====
-- `ProcessModAcks` of pubsuber/src/ModAckIterator.cpp on the acknowledgement thread, with the calls of
-- the users' threads in between: before each request, and before the histogram is read. A call of the
-- service itself reads nothing that they write, so what they do during it comes before the next one.
use pubsuber.Base.{ℕ, zero, suc, ◌/◌, List, [], ◌∷◌, Bytes, Option, none, some, length}
use pubsuber.Containers.{Map, KeySet}
use pubsuber.Double.{Float}
use pubsuber.Io.{Outcome, returned, threw, blocked, terminated, Act, ◌>>◌, pure, read_clock}
use pubsuber.Algorithms.{PackSet, pack_id, give_me_the_keys, split_request_ids}
use pubsuber.ModAckIterator.State.{
  AckWatchDescriptor, so_many_milliseconds, ModAckIterator, ack_deadline,
}
use pubsuber.ModAckIterator.Requests.{
  Session, set_id, max_payload, is_due, ack_batch, nack_batch, extend_packs, take_pending, unwatch,
}
use pubsuber.ModAckIterator.Users.{UserCall, user_calls}

module _ (fl : Float) where
  -- The session, and the calls that the users' threads are to make at each point.
  pub record Concurrent : Type 0 where
    pub session : Session fl
    pub schedule : List (List UserCall)

  abbrev pub with_schedule :
      {A : Type 0} → List (List UserCall) → Outcome (Session fl) A → Outcome Concurrent A
  with_schedule schedule (returned a s) = returned a (record { session = s; schedule = schedule })
  with_schedule schedule (threw e s) = threw e (record { session = s; schedule = schedule })
  with_schedule schedule blocked = blocked
  with_schedule schedule terminated = terminated

  -- An action of the acknowledgement thread.
  abbrev pub alone : {A : Type 0} → Act (Session fl) A → Act Concurrent A
  alone m c = with_schedule c.schedule (m c.session)

  abbrev pub after_calls : Session fl → Option (ModAckIterator fl) → Outcome (Session fl) (Unit {0})
  after_calls s none = terminated
  after_calls s (some it) = returned tt (record s { it = it })

  -- Calls of the users' threads; `terminated` is `std::terminate` in one of them.
  unfoldable pub users : List UserCall → Act (Session fl) (Unit {0})
  unfolding user_calls
  users cs s = after_calls s (user_calls fl cs s.it)

  -- The users' threads have their turn.
  unfoldable pub others : Act Concurrent (Unit {0})
  unfolding users
  others c = elim c.schedule [
    | [] ↦ returned tt c
    | cs ∷ schedule ↦ with_schedule schedule (users cs c.session)
  ]

  -- The loop of `SendAcks`, `SendNacks` and `ModifyAckDeadlines`.
  unfoldable pub drain_among :
      {A : Type 0}
      → (A → Bytes)
      → (List A → Act (Session fl) (Unit {0}))
      → ℕ
      → List A
      → Act Concurrent (Unit {0})
  unfolding others
  drain_among id handle rounds [] c = returned tt c
  drain_among id handle zero (x ∷ ids) c = blocked
  drain_among id handle (suc rounds) (x ∷ ids) c =
      let (rest, to_send) = split_request_ids id (x ∷ ids) max_payload in
      (others >> (alone (handle to_send) >> drain_among id handle rounds rest)) c

  unfoldable pub send_acks_among : KeySet → Act Concurrent (Unit {0})
  unfolding drain_among
  send_acks_among ids = drain_among set_id (ack_batch fl) (suc (length ids)) ids

  unfoldable pub send_nacks_among : KeySet → Act Concurrent (Unit {0})
  unfolding drain_among
  send_nacks_among ids = drain_among set_id (nack_batch fl) (suc (length ids)) ids

  unfoldable pub extend_due_among : PackSet → ℕ → ℕ → Act Concurrent ℕ
  unfolding drain_among
  extend_due_among [] sleep_time dl c = returned (sleep_time / 2) c
  extend_due_among (p ∷ packs) sleep_time dl c =
      (drain_among pack_id (extend_packs fl dl) (suc (length (p ∷ packs))) (p ∷ packs)
          >> pure so_many_milliseconds)
        c

  unfoldable pub modify_watched_among : Map AckWatchDescriptor → ℕ → ℕ → Act Concurrent ℕ
  unfolding extend_due_among is_due
  modify_watched_among [] dl grace_period c = returned so_many_milliseconds c
  modify_watched_among (w ∷ ids) dl grace_period c =
      let (pseudo_now, world) = read_clock c.session.world in
      let (to_modify, sleep_time) =
        give_me_the_keys (is_due grace_period pseudo_now) (w ∷ ids) [] so_many_milliseconds in
      extend_due_among to_modify sleep_time dl
        (record c { session = record c.session { world = world } })

  -- `ModifyAckDeadlines` of `_keepAliveAckIDs`.
  unfoldable pub modify_among : ℕ → ℕ → Act Concurrent ℕ
  unfolding modify_watched_among
  modify_among dl grace_period c =
      modify_watched_among c.session.it.keep_alive_ack_ids dl grace_period c

  abbrev pub or_terminate_among : Option ℕ → (ℕ → Act Concurrent ℕ) → Act Concurrent ℕ
  or_terminate_among none k c = terminated
  or_terminate_among (some n) k c = k n c

  -- The first half of `ProcessModAcks`, with the pending ids that it took.
  unfoldable pub sends_among : KeySet → KeySet → Act Concurrent (Unit {0})
  unfolding send_acks_among send_nacks_among
  sends_among pending_acks pending_nacks = do
    alone (unwatch fl pending_acks)
    send_acks_among pending_acks
    alone (unwatch fl pending_nacks)
    send_nacks_among pending_nacks

  -- The second half.
  unfoldable pub extends_among : Act Concurrent ℕ
  unfolding modify_among
  extends_among c =
      or_terminate_among (ack_deadline fl c.session.it)
        (λ dl. modify_among dl c.session.it.grace_period) c

  unfoldable pub process_among : Act Concurrent ℕ
  unfolding sends_among extends_among others take_pending
  process_among c =
      let ((pending_acks, pending_nacks), it) = take_pending fl c.session.it in
      (sends_among pending_acks pending_nacks >> (others >> extends_among))
        (record c { session = record c.session { it = it } })
