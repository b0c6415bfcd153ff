-- ===== src/ModAckIterator/Races.antt =====
-- Calls of `AddDeadlineWatcher` and `Done` between the two critical sections of a round of the
-- acknowledgement thread: pubsuber/src/Executor.cpp calls `MergeInput` in one, and `ProcessModAcks` of
-- pubsuber/src/ModAckIterator.cpp takes the pending ids in the other.
use pubsuber.Base.{◌≡◌, ◌∙◌, ap, Bytes, true, All, Occurs, some}
use pubsuber.Containers.{lookup, contains}
use pubsuber.Containers.Maps.{lookup-merge, or_else}
use pubsuber.Double.{Float}
use pubsuber.Io.{acknowledge, After}
use pubsuber.Io.Rules.{Holds-mono}
use pubsuber.Algorithms.Split.{IsShort}
use pubsuber.ModAckIterator.State.{AckWatchDescriptor, merge_input}
use pubsuber.ModAckIterator.Requests.{Session, set_id, max_payload, process_mod_acks}
use pubsuber.ModAckIterator.Drain.{Covered}
use pubsuber.ModAckIterator.Extension.{ShortIds}
use pubsuber.ModAckIterator.Process.{Processed}
use pubsuber.ModAckIterator.Outcome.{AllSent, process_mod_acks-Processed}

module _ (fl : Float) (s : Session fl) (alive : s.it.has_executor ≡ true) where
  -- The id is watched once the input is merged again, as its watcher says.
  abbrev pub Returns : Bytes → AckWatchDescriptor → Session fl → Type 0
  Returns k d t = lookup k (merge_input fl t.it).keep_alive_ack_ids ≡ some d

  returns :
      (k : Bytes) (d : AckWatchDescriptor) (t : Session fl)
      → contains k s.it.pending_ack_ids ≡ true
      → lookup k s.it.input_ack_ids ≡ some d
      → Processed fl s t
      → Returns k d t
  unfolding merge_input
  returns k d t pending waiting p =
      lookup-merge k t.it.keep_alive_ack_ids t.it.input_ack_ids
      ∙ ap (λ o. or_else o (lookup k t.it.input_ack_ids)) (p.acks_unwatched k pending)
      ∙ ap (lookup k) p.same_input
      ∙ waiting

  -- While the executor lives and no id makes the 32-bit size of a request wrap around, an id that
  -- is acknowledged while its watcher still waits in the input map is watched again after the next
  -- merge, whether `ProcessModAcks` returns, and so has sent its acknowledgement, or throws.
  pub process_mod_acks-Returns :
      (k : Bytes) (d : AckWatchDescriptor)
      → All (IsShort set_id max_payload) s.it.pending_ack_ids
      → All (IsShort set_id max_payload) s.it.pending_nack_ids
      → ShortIds s.it.keep_alive_ack_ids
      → Occurs k s.it.pending_ack_ids
      → contains k s.it.pending_ack_ids ≡ true
      → lookup k s.it.input_ack_ids ≡ some d
      → After
          (λ ms t. Returns k d t × Covered s.it.subscription_name acknowledge k t.world)
          (λ e t. Returns k d t)
          (process_mod_acks fl s)
  process_mod_acks-Returns k d short_acks short_nacks short occurs pending waiting =
      Holds-mono (λ ms t. AllSent fl s alive t) _ (λ e t. Processed fl s t) _ (Unit {0})
        (process_mod_acks fl s) (process_mod_acks-Processed fl s alive short_acks short_nacks short)
        (λ ms t h. (returns k d t pending waiting h.0, h.1 k occurs))
        (λ e t h. returns k d t pending waiting h)
