-- ===== src/ThreadDataBlock/Tests.antt =====
-- The theorems on the thread blocks of pubsuber/src/Executor.cpp at a block with one subscription.
use pubsuber.Base.{
  ◌≡◌, refl, ℕ, [], ◌∷◌, text, false, none, some, if◌then◌else◌, Bytes_discrete, ℕ_discrete,
}
use pubsuber.Containers.{lookup, contains}
use pubsuber.Containers.Maps.{or_else}
use pubsuber.ThreadDataBlock.{ThreadDataBlock, add_iterator, remove_iterator}
use pubsuber.ThreadDataBlock.Turns.{turn, lookup-turn, turn-quick_stop, turn-second}

-- The iterators are numbers here.
abbrev block : ThreadDataBlock ℕ
block = record {
  need_stop = false;
  input_iterators = [];
  removed_iterators = text "b" ∷ [];
  active_iterators = (text "a", 1) ∷ (text "b", 2) ∷ [];
}

turn-quick_stop_example :
    lookup
      (text "c")
      (turn (remove_iterator (text "c") (add_iterator (text "c") 3 block))).active_iterators
    ≡ some 3
turn-quick_stop_example = turn-quick_stop (text "c") 3 block

turn-second_example :
    (lookup (text "a") (turn (add_iterator (text "a") 4 block)).active_iterators ≡ some 1)
    × ((turn (add_iterator (text "a") 4 block)).input_iterators ≡ [])
unfolding lookup contains Bytes_discrete ℕ_discrete
turn-second_example = turn-second (text "a") 4 1 block refl refl

lookup-turn_example :
    lookup (text "b") (turn (add_iterator (text "b") 5 block)).active_iterators
    ≡ or_else
        (if contains (text "b") block.removed_iterators
          then none
          else lookup (text "b") block.active_iterators)
        (lookup (text "b") (add_iterator (text "b") 5 block).input_iterators)
unfolding add_iterator
lookup-turn_example = lookup-turn (text "b") (add_iterator (text "b") 5 block)
