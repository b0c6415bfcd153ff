-- ===== src/ModAckIterator/Requests.antt =====
-- The operations of pubsuber/src/ModAckIterator.cpp that call the service. They run on the
-- acknowledgement thread.
use pubsuber.Base.{
  ℕ, zero, suc, ◌+◌, ◌*◌, ◌/◌, List, [], ◌∷◌, Bytes, text, Bool, true, false, Option, none, some,
  ltb, if◌then◌else◌, length, min,
}
use pubsuber.Containers.{Map, KeySet, write_through}
use pubsuber.Double.{Float}
use pubsuber.Io.{
  StatusCode, Exception, Request, modify_ack_deadline, acknowledge, World, returned, threw, blocked,
  terminated, Act, ◌>>=◌, ◌>>◌, pure, throw, on_status, read_clock,
}
use pubsuber.Retriable.{CallResult, second, make_call}
use pubsuber.Algorithms.{
  PackSet, pack_id, erase_keys, give_me_the_keys, split_request_ids, populate_from_set,
  populate_from_packs,
}
use pubsuber.ModAckIterator.State.{
  AckWatchDescriptor, early, late, extend_in, so_many_milliseconds, ModAckIterator, ack_deadline,
}

-- In bytes.
abbrev pub max_payload : ℕ
max_payload = 512 * 1024

abbrev pub set_id : Bytes → Bytes
set_id k = k

-- The closure of `ModifyAckDeadlines`: whether the deadline is due, and the sleep time after it.
unfoldable pub is_due : ℕ → ℕ → AckWatchDescriptor → ℕ → Bool × ℕ
is_due grace_period pseudo_now descr sleep_time = elim (extend_in descr pseudo_now) [
  | early ms ↦
      if ltb (grace_period * 1000) ms then (false, min sleep_time ms) else (true, sleep_time)
  | late ms ↦ (true, sleep_time)
]

module _ (fl : Float) where
  -- An iterator at work, and the environment.
  pub record Session : Type 0 where
    pub it : ModAckIterator fl
    pub world : World

  -- A call under the iterator's policies.
  unfoldable pub call_service : Request → Act Session CallResult
  call_service request s = elim (make_call fl request s.it.policies s.world) [
    | returned r w ↦ returned r (record s { world = w })
    | threw e w ↦ threw e (record s { world = w })
    | blocked ↦ blocked
    | terminated ↦ terminated
  ]

  abbrev pub modify : (ModAckIterator fl → ModAckIterator fl) → Act Session (Unit {0})
  modify f s = returned tt (record s { it = f s.it })

  -- The `switch` over the status of a call.
  abbrev pub check_status : StatusCode → Act Session (Unit {0}) → Exception → Act Session (Unit {0})
  check_status StatusCode.ok on_ok error = on_ok
  check_status _ on_ok error = throw error

  -- `callback` is given the time at which the new deadline ends. The text of the exception is the
  -- same for both requests.
  unfoldable pub extend_ack_deadlines :
      List Bytes → ℕ → (ℕ → ModAckIterator fl → ModAckIterator fl) → Act Session (Unit {0})
  unfolding call_service
  extend_ack_deadlines ids new_deadline callback s =
      (do
        r ← call_service (modify_ack_deadline s.it.subscription_name ids new_deadline)
        check_status r.status.error_code (modify (callback (r.next + new_deadline * second)))
            (on_status (text "Pubsuber: ModifyAckDeadline failed with error ") r.status))
        s

  unfoldable pub ack_messages : List Bytes → Act Session (Unit {0})
  unfolding call_service
  ack_messages ids s =
      (do
        r ← call_service (acknowledge s.it.subscription_name ids)
        check_status r.status.error_code (pure tt)
            (on_status (text "Pubsuber: ModifyAckDeadline failed with error ") r.status))
        s

  -- `while (!ids.empty()) { split_request_ids(ids, toSend, kMaxPayload); … }`, the loop of `SendAcks`,
  -- `SendNacks` and `ModifyAckDeadlines`, with its body behind the split as `handle`. `rounds` limits
  -- it: when they are used up and ids are left, the loop has not ended.
  unfoldable pub drain :
      {A : Type 0}
      → (A → Bytes)
      → (List A → Act Session (Unit {0}))
      → ℕ
      → List A
      → Act Session (Unit {0})
  drain id handle rounds [] s = returned tt s
  drain id handle zero (x ∷ ids) s = blocked
  drain id handle (suc rounds) (x ∷ ids) s =
      let (rest, to_send) = split_request_ids id (x ∷ ids) max_payload in
      (handle to_send >> drain id handle rounds rest) s

  -- The bodies of the loops of `SendAcks` and `SendNacks`.
  abbrev pub ack_batch : KeySet → Act Session (Unit {0})
  ack_batch to_send = ack_messages (populate_from_set [] to_send).0

  abbrev pub nack_batch : KeySet → Act Session (Unit {0})
  nack_batch to_send = extend_ack_deadlines (populate_from_set [] to_send).0 0 (λ next it. it)

  -- A loop that makes progress takes at least one id in each round, so one round more than there are
  -- ids is enough.
  unfoldable pub send_acks : KeySet → Act Session (Unit {0})
  unfolding drain ack_messages
  send_acks ids = drain set_id ack_batch (suc (length ids)) ids

  unfoldable pub send_nacks : KeySet → Act Session (Unit {0})
  unfolding drain extend_ack_deadlines
  send_nacks ids = drain set_id nack_batch (suc (length ids)) ids

  -- `UpdateNextAck` through the iterators of the packs that were sent.
  unfoldable pub update_next_acks : PackSet → ℕ → Map AckWatchDescriptor → Map AckWatchDescriptor
  update_next_acks [] next ids = ids
  update_next_acks ((k, entry) ∷ packs) next ids =
      update_next_acks packs next (write_through entry (record { next_ack = next }) ids)

  -- The body of the loop of `ModifyAckDeadlines`.
  unfoldable pub extend_packs : ℕ → PackSet → Act Session (Unit {0})
  unfolding extend_ack_deadlines update_next_acks
  extend_packs dl to_send = extend_ack_deadlines (populate_from_packs [] to_send).0 dl (λ next it.
      record it { keep_alive_ack_ids = update_next_acks to_send next it.keep_alive_ack_ids })

  -- What `ModifyAckDeadlines` does with the ids that are due.
  unfoldable pub extend_due : PackSet → ℕ → ℕ → Act Session ℕ
  unfolding drain extend_packs
  extend_due [] sleep_time dl s = returned (sleep_time / 2) s
  extend_due (p ∷ packs) sleep_time dl s =
      (drain pack_id (extend_packs dl) (suc (length (p ∷ packs))) (p ∷ packs)
          >> pure so_many_milliseconds)
        s

  unfoldable pub modify_watched : Map AckWatchDescriptor → ℕ → ℕ → Act Session ℕ
  unfolding extend_due is_due
  modify_watched [] dl grace_period s = returned so_many_milliseconds s
  modify_watched (w ∷ ids) dl grace_period s =
      let (pseudo_now, world) = read_clock s.world in
      let (to_modify, sleep_time) =
        give_me_the_keys (is_due grace_period pseudo_now) (w ∷ ids) [] so_many_milliseconds in
      extend_due to_modify sleep_time dl (record s { world = world })

  -- `ModifyAckDeadlines` on `_keepAliveAckIDs`, in milliseconds.
  unfoldable pub modify_ack_deadlines : ℕ → ℕ → Act Session ℕ
  unfolding modify_watched
  modify_ack_deadlines dl grace_period s = modify_watched s.it.keep_alive_ack_ids dl grace_period s

  -- The pending sets that `ProcessModAcks` takes, and the iterator after it.
  unfoldable pub take_pending : ModAckIterator fl → (KeySet × KeySet) × ModAckIterator fl
  take_pending it =
      if it.has_executor
      then (
        (it.pending_ack_ids, it.pending_nack_ids),
        record it { pending_ack_ids = []; pending_nack_ids = [] },
      )
      else (([], []), it)

  abbrev pub unwatch : KeySet → Act Session (Unit {0})
  unwatch ids =
      modify (λ it. record it { keep_alive_ack_ids = erase_keys it.keep_alive_ack_ids ids })

  abbrev pub or_terminate : Option ℕ → (ℕ → Act Session ℕ) → Act Session ℕ
  or_terminate none k s = terminated
  or_terminate (some n) k s = k n s

  unfoldable pub process_mod_acks : Act Session ℕ
  unfolding send_acks send_nacks modify_ack_deadlines take_pending
  process_mod_acks s =
      let ((pending_acks, pending_nacks), it) = take_pending s.it in
      (do
        unwatch pending_acks
        send_acks pending_acks
        unwatch pending_nacks
        send_nacks pending_nacks
        λ s'.
            or_terminate (ack_deadline fl s'.it) (λ dl. modify_ack_deadlines dl s'.it.grace_period)
              s')
        (record s { it = it })
