-- ===== src/ThreadDataBlock/Turns.antt =====
-- Which subscriptions a thread of pubsuber/src/Executor.cpp works on after a turn of its loop.
use pubsuber.Base.{
  if◌then◌else◌, ◌≡◌, refl, List, [], ◌∷◌, ◌++◌, Bytes, false, true, none, some, arith,
}
use pubsuber.Containers.{Map, lookup, erase, contains}
use pubsuber.Containers.Maps.{lookup-insert, lookup-erase, lookup-merge, or_else}
use pubsuber.ThreadDataBlock.{
  ThreadDataBlock, add_iterator, remove_iterator, merge_input_to_active, erase_removed,
  remove_from_active,
}

contains-snoc : (n : Bytes) (ks : List Bytes) → contains n (ks ++ (n ∷ [])) ≡ true
unfolding contains
contains-snoc n [] = ground arith
contains-snoc n (k ∷ ks) = ground (arith, contains-snoc n ks)

module _ {I : Type 0} where
  lookup-erase_removed :
      (keys : List Bytes) (n : Bytes) (m : Map I)
      → lookup n (erase_removed keys m) ≡ (if contains n keys then none else lookup n m)
  unfolding erase_removed contains
  lookup-erase_removed [] n m = refl
  lookup-erase_removed (k ∷ keys) n m =
      ground (arith, lookup-erase_removed keys n (erase k m), lookup-erase k n m)

  lookup-remove_from_active :
      (n : Bytes) (b : ThreadDataBlock I)
      → lookup n (remove_from_active b).active_iterators
        ≡ (if contains n b.removed_iterators then none else lookup n b.active_iterators)
  unfolding remove_from_active
  lookup-remove_from_active n b = lookup-erase_removed b.removed_iterators n b.active_iterators

  -- What a turn of the loop of `PullThreadFunc` or `AckThreadFunc` that does not wait does to its
  -- block.
  abbrev pub turn : ThreadDataBlock I → ThreadDataBlock I
  turn b = merge_input_to_active (remove_from_active b)

  -- What is active under a name after a turn that does not wait: what was active under it before,
  -- unless the name was removed; where that is nothing, what waits under it in the input map.
  pub lookup-turn :
      (n : Bytes) (b : ThreadDataBlock I)
      → lookup n (turn b).active_iterators
        ≡ or_else
            (if contains n b.removed_iterators then none else lookup n b.active_iterators)
            (lookup n b.input_iterators)
  unfolding merge_input_to_active remove_from_active
  lookup-turn n b = ground (
    arith,
    lookup-merge n (erase_removed b.removed_iterators b.active_iterators) b.input_iterators,
    lookup-erase_removed b.removed_iterators n b.active_iterators,
  )

  -- A subscription that is removed is not active after the turn that follows if no iterator waits in
  -- the input map.
  pub turn-removed :
      (n : Bytes) (b : ThreadDataBlock I)
      → lookup n b.input_iterators ≡ none
      → lookup n (turn (remove_iterator n b)).active_iterators ≡ none
  unfolding remove_iterator
  turn-removed n b e =
      ground (arith, lookup-turn n (remove_iterator n b), contains-snoc n b.removed_iterators)

  -- A subscription that is added and removed again before the thread's next turn is active after that
  -- turn, whatever the block was.
  pub turn-quick_stop :
      (n : Bytes) (it : I) (b : ThreadDataBlock I)
      → lookup n (turn (remove_iterator n (add_iterator n it b))).active_iterators ≡ some it
  unfolding remove_iterator add_iterator
  turn-quick_stop n it b = ground (
    arith,
    lookup-turn n (remove_iterator n (add_iterator n it b)),
    contains-snoc n b.removed_iterators,
    lookup-insert n n it b.input_iterators,
  )

  -- An iterator for a subscription that is active and not removed is dropped by the turn: the old one
  -- stays active.
  pub turn-second :
      (n : Bytes) (it old : I) (b : ThreadDataBlock I)
      → lookup n b.active_iterators ≡ some old
      → contains n b.removed_iterators ≡ false
      → (lookup n (turn (add_iterator n it b)).active_iterators ≡ some old)
        × ((turn (add_iterator n it b)).input_iterators ≡ [])
  unfolding add_iterator merge_input_to_active
  turn-second n it old b e e' = (ground (arith, lookup-turn n (add_iterator n it b)), refl)
