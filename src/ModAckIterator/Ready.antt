-- ===== src/ModAckIterator/Ready.antt =====
-- When `ProcessModAcks` of pubsuber/src/ModAckIterator.cpp ends, as one condition on the iterator.
use pubsuber.Base.{ℕ, ◌+◌, ◌*◌, ◌^◌, ◌≤◌, ◌<◌, ◌≡◌, true, length, All}
use pubsuber.Double.{Float, IsIeee}
use pubsuber.Distribution.Records.{total}
use pubsuber.Io.{Ends}
use pubsuber.Retriable.Attempts.{IsLimited}
use pubsuber.Algorithms.Split.{Fits}
use pubsuber.ModAckIterator.State.{ModAckIterator}
use pubsuber.ModAckIterator.Requests.{Session, set_id, max_payload, process_mod_acks}
use pubsuber.ModAckIterator.Calls.{tries, replies_left}
use pubsuber.ModAckIterator.Extension.{FitIds}
use pubsuber.ModAckIterator.Process.{Processed}
use pubsuber.ModAckIterator.Outcome.{AllSent}
use pubsuber.ModAckIterator.Total.{process_mod_acks-Spends}

module _ (fl : Float) where
  -- The executor lives, every id fits in a request, the retries are limited, and the histogram has a cell
  -- and counts at most 2^53 times.
  pub record IsReady (it : ModAckIterator fl) : Type 0 where
    pub alive : it.has_executor ≡ true
    pub limited : IsLimited it.policies.count_policy
    pub filled : 0 < length it.ack_dist.hist
    pub few : total it.ack_dist.hist ≤ 2 ^ 53
    pub fit_acks : All (Fits set_id max_payload) it.pending_ack_ids
    pub fit_nacks : All (Fits set_id max_payload) it.pending_nack_ids
    pub fits : FitIds it.keep_alive_ack_ids

  -- The tries of one call for each pending and each watched id.
  abbrev pub cost : ModAckIterator fl → ℕ
  cost it =
      tries fl it.policies
      * (length it.pending_ack_ids + length it.pending_nack_ids + length it.keep_alive_ack_ids)

  -- It ends within its cost.
  pub process_mod_acks-AllSent :
      (s : Session fl) (ready : IsReady s.it)
      → IsIeee fl
      → cost s.it ≤ replies_left fl s
      → Ends
          (λ ms t. AllSent fl s ready.alive t × (replies_left fl s ≤ replies_left fl t + cost s.it))
          (λ e t. Processed fl s t)
          (process_mod_acks fl s)
  process_mod_acks-AllSent s ready ieee room =
      process_mod_acks-Spends fl s ready.alive ready.limited ieee ready.filled ready.few
        ready.fit_acks ready.fit_nacks ready.fits room
