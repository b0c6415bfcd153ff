-- ===== src/ModAckIterator/State.antt =====
-- The state of a `ModAckIterator` of pubsuber/src/ModAckIterator.h, and the operations on it that
-- make no calls.
use pubsuber.Base.{
  ℕ, ◌-◌, ◌/◌, ◌%◌, ◌^◌, List, [], Bytes, Bool, Option, none, some, leb, if◌then◌else◌, length, min,
  max,
}
use pubsuber.Containers.{Map, KeySet, insert_or_assign, set_emplace, set_erase, merge}
use pubsuber.Double.{Float}
use pubsuber.Distribution.{Distribution, record_value, percentile}
use pubsuber.Distribution
use pubsuber.Retriable.{Policies, second}

-- In seconds.
abbrev pub min_ack_deadline : ℕ
min_ack_deadline = 10

abbrev pub max_ack_deadline : ℕ
max_ack_deadline = 600

-- In milliseconds.
abbrev pub so_many_milliseconds : ℕ
so_many_milliseconds = 1_000_000_000

pub record AckWatchDescriptor : Type 0 where
  pub next_ack : ℕ

-- A duration that may be negative: `early n` is n milliseconds, `late n` is -n.
pub data Milliseconds : Type 0 where
  early late : ℕ → Milliseconds

-- `ExtendIn`; the cast drops the fraction of a millisecond.
unfoldable pub extend_in : AckWatchDescriptor → ℕ → Milliseconds
extend_in d now =
    if leb now d.next_ack
    then early ((d.next_ack - now) / 10 ^ 6)
    else late ((now - d.next_ack) / 10 ^ 6)

pub data DoneAction : Type 0 where
  ack nack : DoneAction

-- The seconds from `rt` to `now`, as the `uint64_t` that `Record` takes.
unfoldable pub seconds_since : ℕ → ℕ → ℕ
seconds_since rt now =
    if leb rt now then (now - rt) / second else (2 ^ 64 - (rt - now) / second) % 2 ^ 64

module _ (fl : Float) where
  -- `has_executor` is whether `_executor.lock()` gives the executor.
  pub record ModAckIterator : Type 0 where
    pub subscription_name : Bytes
    pub grace_period : ℕ
    pub ack_dist : Distribution
    pub has_executor : Bool
    pub policies : Policies fl
    pub input_ack_ids : Map AckWatchDescriptor
    pub pending_ack_ids : KeySet
    pub pending_nack_ids : KeySet
    pub keep_alive_ack_ids : Map AckWatchDescriptor

  -- `raw` is what the memory of the histogram holds.
  unfoldable pub create : Bytes → Bool → Policies fl → List ℕ → ModAckIterator
  create subscription_name has_executor policies raw = record {
    subscription_name = subscription_name;
    grace_period = min_ack_deadline / 2;
    ack_dist = Distribution.create raw;
    has_executor = has_executor;
    policies = policies;
    input_ack_ids = [];
    pending_ack_ids = [];
    pending_nack_ids = [];
    keep_alive_ack_ids = [];
  }

  unfoldable pub add_deadline_watcher : Bytes → ℕ → ModAckIterator → ModAckIterator
  add_deadline_watcher ack_id next_ack it =
      if it.has_executor
      then (record it {
        input_ack_ids = insert_or_assign ack_id (record { next_ack = next_ack }) it.input_ack_ids;
      })
      else it

  -- The `switch` of `Done`, under the lock.
  unfoldable pub set_done : Bytes → DoneAction → ModAckIterator → ModAckIterator
  set_done key ack it = record it {
    pending_nack_ids = set_erase key it.pending_nack_ids;
    pending_ack_ids = set_emplace key it.pending_ack_ids;
  }
  set_done key nack it = record it {
    pending_ack_ids = set_erase key it.pending_ack_ids;
    pending_nack_ids = set_emplace key it.pending_nack_ids;
  }

  -- `Done`, at the clock reading `now`; `none` is `std::terminate`, since `Done` is `noexcept`.
  unfoldable pub done : Bytes → ℕ → ℕ → DoneAction → ModAckIterator → Option ModAckIterator
  unfolding set_done seconds_since
  done ack_id rt now action it = elim (record_value (seconds_since rt now) it.ack_dist) [
    | none ↦ none
    | some dist ↦
        let it' = record it { ack_dist = dist } in
        some (if it.has_executor then set_done ack_id action it' else it')
  ]

  unfoldable pub keep_alive_count : ModAckIterator → ℕ
  keep_alive_count it = length it.keep_alive_ack_ids

  unfoldable pub input_count : ModAckIterator → ℕ
  input_count it = length it.input_ack_ids

  unfoldable pub merge_input : ModAckIterator → ModAckIterator
  merge_input it = record it {
    keep_alive_ack_ids = merge it.keep_alive_ack_ids it.input_ack_ids;
    input_ack_ids = [];
  }

  -- `AckDeadline`, in seconds; `none` is `std::terminate`.
  unfoldable pub ack_deadline : ModAckIterator → Option ℕ
  ack_deadline it = elim (percentile fl it.ack_dist (fl.decimal 99 2)) [
    | none ↦ none
    | some dl ↦ some (min (max dl min_ack_deadline) max_ack_deadline)
  ]
