-- ===== src/Subscription/Tests.antt =====
-- The theorems on pubsuber/src/SubscriptionImpl.cpp for a subscription that exists.
use pubsuber.Retriable.Meanings.{exists_meaning, create_meaning, delete_meaning}
use pubsuber.Subscription.{exists, create_subscription, delete}
use pubsuber.Subscription.Answers.{
  Decided, saved_deadline, same_deadline, subscription_calls-Decided,
}
use pubsuber.Base.{◌≡◌, ℕ, [], ◌∷◌, text, true, false, some}
use pubsuber.Double.{fixed_point}
use pubsuber.Io.{After, ◌>>=◌}
use pubsuber.ThreadDataBlock.{ThreadDataBlock}
use pubsuber.Subscription.{Shared, receive, stop}
use pubsuber.Subscription.Receiver.{Same, Received, receive-Received}
use pubsuber.Subscription.QuickStop.{StillActive, receive-stop}
use pubsuber.Examples.{two_retries, world_of, ok_answers, tick}

abbrev idle_block : {I : Type 0} → ThreadDataBlock I
idle_block = record {
  need_stop = false;
  input_iterators = [];
  removed_iterators = [];
  active_iterators = [];
}

-- Callbacks are numbers here.
abbrev shared : Shared fixed_point ℕ
shared = record {
  subscription = record {
    id = text "s";
    full_name = text "projects/p/subscriptions/s";
    ack_deadline = 0;
    receiver_active = false;
    policies = two_retries;
  };
  alive = true;
  executor = record {
    max_prefetch = 4;
    policies = two_retries;
    ack_thread = idle_block;
    pull_thread = idle_block;
    store = [];
  };
  world = world_of ok_answers tick;
}

receive-Received_example :
    After
      (λ t s'. Received fixed_point ℕ (some 7) (0 ∷ 0 ∷ []) shared s')
      (λ e s'. Same fixed_point ℕ shared s')
      (receive fixed_point ℕ (some 7) (0 ∷ 0 ∷ []) shared)
receive-Received_example = receive-Received fixed_point ℕ (some 7) (0 ∷ 0 ∷ []) shared

receive-stop_example :
    After
      (λ t s'.
        (s'.subscription.receiver_active ≡ false) × StillActive fixed_point ℕ (some 7) shared s')
      (λ e s'. Unit)
      ((receive fixed_point ℕ (some 7) (0 ∷ 0 ∷ []) >>= λ t. stop fixed_point ℕ) shared)
receive-stop_example = receive-stop fixed_point ℕ (some 7) (0 ∷ 0 ∷ []) shared

subscription_calls-Decided_example :
    Decided fixed_point ℕ exists_meaning saved_deadline shared (exists fixed_point ℕ shared)
    × Decided fixed_point ℕ create_meaning saved_deadline shared
        (create_subscription fixed_point ℕ (text "t") 20 shared)
    × Decided fixed_point ℕ delete_meaning same_deadline shared (delete fixed_point ℕ shared)
subscription_calls-Decided_example = subscription_calls-Decided fixed_point ℕ (text "t") 20 shared
