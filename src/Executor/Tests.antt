-- ===== src/Executor/Tests.antt =====
-- Rounds of the threads of pubsuber/src/Executor.cpp at a concrete executor.
use pubsuber.Base.{Bytes_discrete, ℕ_discrete}
use pubsuber.Io.{StatusCode, Reason, foreign, uninitialized, threw, terminated}
use pubsuber.Examples.{answer, empty_response}
use pubsuber.Io.{Exception, Outcome, blocked, message}
use pubsuber.Executor.Rounds
use pubsuber.Executor.Throws.{turned}
use pubsuber.Io.{ensure_connected}
use pubsuber.ThreadDataBlock.{merge_input_to_active}
use pubsuber.Containers.{merge}
use pubsuber.PullIterator
use pubsuber.Base.{◌++◌, Bytes}
use pubsuber.Io.{Ends}
use pubsuber.Double.{fixed_point-IsIeee}
use pubsuber.Distribution.Records.{total}
use pubsuber.ModAckIterator.Ready.{IsReady}
use pubsuber.Executor.Rounds.{process_mod_acks}
use pubsuber.Executor.AllSent.{AllActive, IsSent, process_mod_acks-AllActive}
use pubsuber.Base.{refl}
use pubsuber.Io.{returned}
use pubsuber.Containers.{insert_or_assign}
use pubsuber.Executor.{Puller}
use pubsuber.ThreadDataBlock.{
  erase_removed, remove_from_active, add_iterator, stop_thread, stop, clear_input, clear_removed,
}
use pubsuber.Executor.Rounds.{
  has_no_acks, count_each, report_keep_alive_metric, ack_round, pull_round, work_on_pulls,
  without_removed_pulls,
}
use pubsuber.Executor.Idle.{
  TellsToStop, AckStops, PullStops, StillWaits, idle_threads_end, ack_round-StillWaits,
}
use pubsuber.Base.{ℕ, ◌≡◌, [], ◌∷◌, text, Bool, true, false}
use pubsuber.Double.{fixed_point}
use pubsuber.Io.{Act, pure}
use pubsuber.Message.{MessageImpl}
use pubsuber.ModAckIterator.{so_many_milliseconds}
use pubsuber.ModAckIterator.Requests.{Session}
use pubsuber.ThreadDataBlock.{ThreadDataBlock}
use pubsuber.Executor.{Executor, stop_threads}
use pubsuber.Executor.Rounds.{Running, ack_thread_func, pull_thread_func}
use pubsuber.Base.{arith}
use pubsuber.Executor.{register}
use pubsuber.Executor.Shares.{IsShared, add_iterator-IsShared}
use pubsuber.Containers.{lookup}
use pubsuber.Base.{some}
use pubsuber.Executor
use pubsuber.Examples.{iterator, two_retries, world_of, ok_answers, tick}

abbrev active_block : {I : Type 0} → I → ThreadDataBlock I
active_block it = record {
  need_stop = false;
  input_iterators = [];
  removed_iterators = [];
  active_iterators = (text "s", it) ∷ [];
}

-- Callbacks are numbers here, and do nothing.
abbrev executor : Executor fixed_point ℕ
executor = record {
  max_prefetch = 4;
  policies = two_retries;
  ack_thread = active_block 0;
  pull_thread = active_block (record {
    iterator = record { subscription_name = text "s"; max_message_prefetch = 4 };
    callback = 7;
    ack_iterator = 0;
  });
  store = iterator ∷ [];
}

abbrev running : Running fixed_point ℕ
running = record {
  executor = executor;
  world = world_of ok_answers tick;
  metrics_sinks = true;
  metrics = [];
}

abbrev run : ℕ → MessageImpl → Act (Session fixed_point) (Unit {0})
run callback m = pure tt

-- The threads are told to stop while they wait.
abbrev told_to_stop : ℕ → Executor fixed_point ℕ → Executor fixed_point ℕ × Bool
told_to_stop ms e = (stop_threads fixed_point ℕ e, false)

abbrev empty_block : {I : Type 0} → ThreadDataBlock I
empty_block = record {
  need_stop = false;
  input_iterators = [];
  removed_iterators = [];
  active_iterators = [];
}

-- No receiver yet.
abbrev idle : Running fixed_point ℕ
idle = record running {
  executor = record executor { ack_thread = empty_block; pull_thread = empty_block };
}

tells_to_stop : TellsToStop fixed_point ℕ told_to_stop
unfolding stop_threads stop_thread clear_removed clear_input stop
tells_to_stop = record { acks = λ ms e. refl; pulls = λ ms e. refl }

idle_threads_end_example :
    AckStops fixed_point ℕ
      (ack_thread_func fixed_point ℕ told_to_stop 2 (so_many_milliseconds, false) idle)
    × PullStops fixed_point ℕ (pull_thread_func fixed_point ℕ run told_to_stop 2 idle)
unfolding has_no_acks count_each report_keep_alive_metric remove_from_active erase_removed
idle_threads_end_example =
    idle_threads_end fixed_point ℕ run told_to_stop 0 so_many_milliseconds false idle tells_to_stop
      refl refl

abbrev times_out : ℕ → Executor fixed_point ℕ → Executor fixed_point ℕ × Bool
times_out ms e = (e, true)

-- A receiver was registered, and its notification came while no thread waited.
abbrev newcomer : Running fixed_point ℕ
newcomer = record idle { executor = register fixed_point ℕ (text "t") 8 (0 ∷ []) idle.executor }

abbrev new_puller : Puller fixed_point ℕ
new_puller = record {
  iterator = record { subscription_name = text "t"; max_message_prefetch = 4 };
  callback = 8;
  ack_iterator = 1;
}

ack_round-StillWaits_example :
    ((sleep' : ℕ) × (r' : Running fixed_point ℕ) × (ack_round fixed_point ℕ times_out
          (so_many_milliseconds, false)
          newcomer
        ≡ returned (sleep', false) r')
      × StillWaits fixed_point ℕ newcomer r')
    × (pull_round fixed_point ℕ run times_out newcomer
        ≡ work_on_pulls fixed_point ℕ run times_out (without_removed_pulls fixed_point ℕ newcomer))
unfolding has_no_acks count_each report_keep_alive_metric remove_from_active erase_removed register
    add_iterator insert_or_assign
ack_round-StillWaits_example =
    ack_round-StillWaits fixed_point ℕ run times_out so_many_milliseconds newcomer
      (text "t", new_puller) [] (λ ms e. refl) refl refl

-- Two subscriptions with the same ids.
abbrev pair : Running fixed_point ℕ
pair = record running {
  executor = record executor {
    ack_thread = record (active_block 0) { active_iterators = (text "s", 0) ∷ (text "t", 1) ∷ [] };
    store = iterator ∷ record iterator { subscription_name = text "t" } ∷ [];
  };
  world = world_of (ok_answers ++ ok_answers) tick;
}

iterator-IsReady :
    (name : Bytes) → IsReady fixed_point (record iterator { subscription_name = name })
unfolding total
iterator-IsReady name = record {
  alive = refl;
  limited = (omega arith, omega arith);
  filled = omega arith;
  few = omega arith;
  fit_acks = ((omega arith, omega arith), tt);
  fit_nacks = ((omega arith, omega arith), tt);
  fits = ((omega arith, omega arith), ((omega arith, omega arith), tt));
}

process_mod_acks-AllActive_example :
    Ends
      (λ ms r'.
        AllActive fixed_point ℕ
          (λ it. IsSent fixed_point ℕ it r'.world)
          ((text "s", 0) ∷ (text "t", 1) ∷ [])
          pair.executor.store)
      (λ e r'. Unit {0})
      (process_mod_acks fixed_point ℕ pair)
process_mod_acks-AllActive_example =
    process_mod_acks-AllActive fixed_point ℕ 24 pair fixed_point-IsIeee
      (
        iterator,
        refl,
        iterator-IsReady (text "s"),
        ((λ e. ground arith), tt),
        12,
        omega arith,
        (
          record iterator { subscription_name = text "t" },
          refl,
          iterator-IsReady (text "t"),
          tt,
          0,
          omega arith,
          tt,
        ),
      )
      (omega arith)

-- A second subscription.
add_iterator-IsShared_example :
    (e' : Executor fixed_point ℕ) × (Executor.add_iterator fixed_point ℕ
        (text "t")
        (some 8)
        (0 ∷ [])
        executor
      ≡ returned tt e')
    × IsShared fixed_point ℕ (text "t") 8 executor e'
unfolding lookup Bytes_discrete ℕ_discrete
add_iterator-IsShared_example =
    add_iterator-IsShared fixed_point ℕ 116 [] 8 (0 ∷ []) executor refl refl

-- A callback that throws, and an answer with a message for it.
abbrev run_throws : Reason → ℕ → MessageImpl → Act (Session fixed_point) (Unit {0})
run_throws what callback m s = threw (record { what = what; code = uninitialized }) s

abbrev one_message : Running fixed_point ℕ
one_message = record running {
  world = record (world_of [] tick) {
    links = true ∷ [];
    replies =
        record (answer StatusCode.ok) {
          response = record empty_response {
            received_messages =
                record { ack_id = text "x"; message = record { payload = []; attributes = [] } }
                ∷ [];
          };
        }
        ∷ [];
  };
}

-- The callback throws another exception than those of the library.
foreign_exception :
    pull_thread_func fixed_point ℕ (run_throws foreign) told_to_stop 2 one_message ≡ terminated
unfolding pull_thread_func pull_round remove_from_active ensure_connected merge_input_to_active
    merge PullIterator.pull
foreign_exception = refl

abbrev state_of : {A : Type 0} → Outcome (Running fixed_point ℕ) A → Running fixed_point ℕ
state_of (returned a r) = r
state_of (threw e r) = r
state_of blocked = one_message
state_of terminated = one_message

-- The round of a callback that throws an exception of the library.
abbrev throwing : Outcome (Running fixed_point ℕ) ℕ
throwing =
    Rounds.pull fixed_point ℕ (run_throws (message (text "no")))
      (turned fixed_point ℕ (run_throws (message (text "no"))) told_to_stop one_message)

abbrev thrown : Exception
thrown = record { what = message (text "no"); code = uninitialized }
