-- ===== src/Executor.antt =====
-- `Executor` of pubsuber/src/Executor.h and Executor.cpp: what its two threads share with the users'
-- threads. Iterators are shared between the threads, so they live in a store and are named by their
-- place in it.
pub mod Rounds
pub mod Survival
pub mod Shares
pub mod Throws
pub mod Idle
pub mod AllSent
pub mod Starved
mod Tests
use pubsuber.Base.{ℕ, List, [], ◌∷◌, ◌++◌, Bytes, text, true, Option, none, some, length}
use pubsuber.Double.{Float}
use pubsuber.Io.{returned, threw, Act, plain}
use pubsuber.Retriable.{Policies}
use pubsuber.ModAckIterator.{ModAckIterator}
use pubsuber.ModAckIterator
use pubsuber.PullIterator.{SubscriptionPullIterator}
use pubsuber.ThreadDataBlock.{ThreadDataBlock, stop_thread}
use pubsuber.ThreadDataBlock

module _ (fl : Float) (Callback : Type 0) where
  -- An iterator of the pull thread, with the user's callback and the place of its `ModAckIterator`.
  pub record Puller : Type 0 where
    pub iterator : SubscriptionPullIterator
    pub callback : Callback
    pub ack_iterator : ℕ

  -- `store` holds the `ModAckIterator`s that were made, in the order of their making.
  pub record Executor : Type 0 where
    pub max_prefetch : ℕ
    pub policies : Policies fl
    pub ack_thread : ThreadDataBlock ℕ
    pub pull_thread : ThreadDataBlock Puller
    pub store : List (ModAckIterator fl)

  unfoldable pub apply_policies : Policies fl → Executor → Executor
  apply_policies p e = record e { policies = p }

  -- The last three statements of `AddIterator`; `raw` is the memory of the new histogram.
  unfoldable pub register : Bytes → Callback → List ℕ → Executor → Executor
  register full_subscription_name callback raw e =
      let place = length e.store in
      let puller : Puller = record {
        iterator = record {
          subscription_name = full_subscription_name;
          max_message_prefetch = e.max_prefetch;
        };
        callback = callback;
        ack_iterator = place;
      } in
      record e {
        store =
            e.store ++ (ModAckIterator.create fl full_subscription_name true e.policies raw ∷ []);
        pull_thread = ThreadDataBlock.add_iterator full_subscription_name puller e.pull_thread;
        ack_thread = ThreadDataBlock.add_iterator full_subscription_name place e.ack_thread;
      }

  -- `AddIterator`; a callback that is not set is `none`.
  unfoldable pub add_iterator : Bytes → Option Callback → List ℕ → Act Executor (Unit {0})
  unfolding register
  add_iterator full_subscription_name none raw e =
      threw (plain (text "Pubsuber: callback must be set")) e
  add_iterator [] (some callback) raw e =
      threw (plain (text "Pubsuber: subscription name must be set")) e
  add_iterator (c ∷ name) (some callback) raw e = returned tt (register (c ∷ name) callback raw e)

  unfoldable pub remove_iterator : Bytes → Executor → Executor
  remove_iterator full_subscription_name e = record e {
    pull_thread = ThreadDataBlock.remove_iterator full_subscription_name e.pull_thread;
    ack_thread = ThreadDataBlock.remove_iterator full_subscription_name e.ack_thread;
  }

  unfoldable pub stop_threads : Executor → Executor
  stop_threads e = record e {
    pull_thread = stop_thread e.pull_thread;
    ack_thread = stop_thread e.ack_thread;
  }
