-- ===== src/Executor/Starved/Tests.antt =====
-- Three subscriptions of pubsuber/src/Executor.cpp, where the second one was deleted at the service.
use pubsuber.Base.{
  ℕ, ◌≡◌, ◌≢◌, refl, [], ◌∷◌, Bytes, text, false, get_elem?, All, Bytes_discrete, ℕ_discrete,
}
use pubsuber.Double.{fixed_point}
use pubsuber.Io.{StatusCode, Exception, Outcome, returned, threw, blocked, terminated, on_status}
use pubsuber.Containers.{erase, contains}
use pubsuber.Distribution.{percentile}
use pubsuber.Algorithms.{erase_keys, split_request_ids, take_ids, populate_from_set}
use pubsuber.ExpoBackoff.{create}
use pubsuber.Retriable.{make_call, attempts, retries_exhausted}
use pubsuber.ModAckIterator.{ModAckIterator, ack_deadline, so_many_milliseconds}
use pubsuber.ModAckIterator.Requests.{take_pending, send_acks, drain, ack_messages, call_service}
use pubsuber.ModAckIterator.Requests
use pubsuber.ThreadDataBlock.{ThreadDataBlock}
use pubsuber.Executor.Rounds.{Running, put, on_iterator, process_each, process_mod_acks}
use pubsuber.Executor.Starved.{process_mod_acks-starved}
use pubsuber.Examples.{iterator, two_retries, world_of, answer, tick}

abbrev no_work : {I : Type 0} → ThreadDataBlock I
no_work = record {
  need_stop = false;
  input_iterators = [];
  removed_iterators = [];
  active_iterators = [];
}

-- Nothing is pending or watched for the first one.
abbrev quiet : ModAckIterator fixed_point
quiet = record iterator { pending_ack_ids = []; pending_nack_ids = []; keep_alive_ack_ids = [] }

abbrev three : Running fixed_point ℕ
three = record {
  executor = record {
    max_prefetch = 4;
    policies = two_retries;
    ack_thread = record no_work {
      active_iterators = (text "q", 0) ∷ (text "s", 1) ∷ (text "t", 2) ∷ [];
    };
    pull_thread = no_work;
    store = quiet ∷ iterator ∷ record iterator { subscription_name = text "t" } ∷ [];
  };
  world = world_of (answer StatusCode.not_found ∷ []) tick;
  metrics_sinks = false;
  metrics = [];
}

abbrev state_of : {A : Type 0} → Outcome (Running fixed_point ℕ) A → Running fixed_point ℕ
state_of (returned a r) = r
state_of (threw e r) = r
state_of blocked = three
state_of terminated = three

abbrev result_of : Outcome (Running fixed_point ℕ) ℕ → ℕ
result_of (returned ms r) = ms
result_of _ = 0

abbrev of_first : Outcome (Running fixed_point ℕ) ℕ
of_first = process_each fixed_point ℕ ((text "q", 0) ∷ []) so_many_milliseconds three

abbrev of_second : Outcome (Running fixed_point ℕ) ℕ
of_second = on_iterator fixed_point ℕ 1 (Requests.process_mod_acks fixed_point) (state_of of_first)

abbrev refusal : Exception
refusal =
    on_status (text "Pubsuber: ModifyAckDeadline failed with error ")
      (record { error_code = StatusCode.not_found; error_message = [] })

first_returns : of_first ≡ returned (result_of of_first) (state_of of_first)
unfolding process_each on_iterator put Requests.process_mod_acks take_pending erase_keys send_acks
    drain ack_deadline percentile
first_returns = refl

second_throws : of_second ≡ threw refusal (state_of of_second)
unfolding process_each on_iterator put Requests.process_mod_acks take_pending erase_keys erase
    send_acks drain split_request_ids take_ids ack_messages call_service make_call attempts
    retries_exhausted populate_from_set contains create Bytes_discrete ℕ_discrete ack_deadline
    percentile
second_throws = refl

process_mod_acks-starved_example :
    (process_mod_acks fixed_point ℕ three ≡ threw refusal (state_of of_second))
    × ((q : ℕ)
        → All {A = Bytes × ℕ} (λ p. q ≢ p.1) ((text "q", 0) ∷ [])
        → q ≢ 1
        → get_elem? (state_of of_second).executor.store q ≡ get_elem? three.executor.store q)
process_mod_acks-starved_example =
    process_mod_acks-starved fixed_point ℕ ((text "q", 0) ∷ []) ((text "t", 2) ∷ []) (text "s") 1
      (result_of of_first) three (state_of of_first) (state_of of_second) refusal refl first_returns
      second_throws
