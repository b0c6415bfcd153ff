-- ===== src/ThreadDataBlock.antt =====
-- `Executor::ThreadDataBlock` of pubsuber/src/Executor.h and Executor.cpp: the subscriptions that a
-- thread works on, as the user's threads and the thread itself change them. Each operation runs
-- under the block's mutex, or on the one thread that uses what it changes.
pub mod Turns
mod Tests
use pubsuber.Base.{List, [], ◌∷◌, ◌++◌, Bytes, Bool, true, false}
use pubsuber.Containers.{Map, KeySet, insert_or_assign, erase, merge}

module _ (I : Type 0) where
  pub record ThreadDataBlock : Type 0 where
    pub need_stop : Bool
    pub input_iterators : Map I
    pub removed_iterators : List Bytes
    pub active_iterators : Map I

module _ {I : Type 0} where
  -- `AddIterator(subscription, it)`.
  unfoldable pub add_iterator : Bytes → I → ThreadDataBlock I → ThreadDataBlock I
  add_iterator subscription it b = record b {
    input_iterators = insert_or_assign subscription it b.input_iterators;
  }

  -- `RemoveIterator(subscription)`.
  unfoldable pub remove_iterator : Bytes → ThreadDataBlock I → ThreadDataBlock I
  remove_iterator subscription b = record b {
    removed_iterators = b.removed_iterators ++ (subscription ∷ []);
  }

  unfoldable pub merge_input_to_active : ThreadDataBlock I → ThreadDataBlock I
  merge_input_to_active b = record b {
    active_iterators = merge b.active_iterators b.input_iterators;
    input_iterators = [];
  }

  -- The loop of `RemoveFromActive`.
  unfoldable pub erase_removed : List Bytes → Map I → Map I
  erase_removed [] active = active
  erase_removed (key ∷ removed) active = erase_removed removed (erase key active)

  unfoldable pub remove_from_active : ThreadDataBlock I → ThreadDataBlock I
  unfolding erase_removed
  remove_from_active b = record b {
    active_iterators = erase_removed b.removed_iterators b.active_iterators;
    removed_iterators = [];
  }

  unfoldable pub clear_input : ThreadDataBlock I → ThreadDataBlock I
  clear_input b = record b { input_iterators = [] }

  unfoldable pub clear_removed : ThreadDataBlock I → ThreadDataBlock I
  clear_removed b = record b { removed_iterators = [] }

  -- `Stop` sets the flag and joins the thread.
  unfoldable pub stop : ThreadDataBlock I → ThreadDataBlock I
  stop b = record b { need_stop = true }

  -- What `StopThreads` does to the block of each thread.
  unfoldable pub stop_thread : ThreadDataBlock I → ThreadDataBlock I
  unfolding stop clear_input clear_removed
  stop_thread b =
      let b' = clear_input (stop b) in clear_removed (record b' { active_iterators = [] })
