-- ===== src/Algorithms.antt =====
-- pubsuber/src/Algorithms.h over the containers of pubsuber/src/ContainerTypes.h. An
-- `AckIDPackSet` holds acknowledgement ids with iterators into the map of watched ids; an iterator is
-- the key of the element that it denotes.
pub mod Split
pub mod Keys
mod Tests
use pubsuber.Base.{
  ℕ, ◌+◌, ◌%◌, ◌^◌, List, [], ◌∷◌, ◌++◌, Bytes, Bool, true, false, Option, none, some, ◌&&◌, ltb,
  if◌then◌else◌, length,
}
use pubsuber.Containers.{Map, KeySet, lookup, emplace, erase}

abbrev pub PackSet : Type 0
PackSet = Map Bytes

abbrev pub pack_id : Bytes × Bytes → Bytes
pack_id p = p.0

abbrev pub req_fixed_overhead : ℕ
req_fixed_overhead = 100

abbrev pub overhead_per_id : ℕ
overhead_per_id = 3

pub insert_entry : Bytes → Option Bytes → PackSet → PackSet
insert_entry k none to_modify = to_modify
insert_entry k (some entry) to_modify = emplace k entry to_modify

module _ {ℓ} {V : Type ℓ} where
  unfoldable pub erase_keys : Map V → KeySet → Map V
  erase_keys from [] = from
  erase_keys from (k ∷ what) = erase_keys (erase k from) what

  -- `ids.find(key)`, as the key of the element.
  pub find_entry : Bytes → Option V → Option Bytes
  find_entry k none = none
  find_entry k (some v) = some k

  -- The predicate is a closure that writes to `S`. `rest` is what is left to visit of `ids`.
  unfoldable pub give_keys :
      {S : Type 0} → (V → S → Bool × S) → Map V → Map V → PackSet → S → PackSet × S
  unfolding find_entry insert_entry
  give_keys pred ids [] to_modify s = (to_modify, s)
  give_keys pred ids ((k, v) ∷ rest) to_modify s =
      let (taken, s') = pred v s in
      give_keys pred ids rest
        (if taken then insert_entry k (find_entry k (lookup k ids)) to_modify else to_modify) s'

  unfoldable pub give_me_the_keys :
      {S : Type 0} → (V → S → Bool × S) → Map V → PackSet → S → PackSet × S
  unfolding give_keys
  give_me_the_keys pred ids to_modify s = give_keys pred ids ids to_modify s

module _ {A : Type 0} (id : A → Bytes) where
  -- The `for` loop of `split_request_ids`. `size` is an `int` that is compared as a `uint32_t`: its
  -- value modulo 2^32. The elements of a set are distinct, so `insert` adds each one.
  unfoldable pub take_ids : ℕ → ℕ → List A → List A → List A × List A
  take_ids max_size size [] to_send = ([], to_send)
  take_ids max_size size (x ∷ remainder) to_send =
      let size' = (size + (overhead_per_id + length (id x))) % 2 ^ 32 in
      let more = take_ids max_size size' remainder (to_send ++ x ∷ []) in
      if ltb size max_size && ltb size' max_size then more else (x ∷ remainder, to_send)

  -- `remainder` and `toSend` after the call. What `toSend` held before is cleared.
  unfoldable pub split_request_ids : List A → ℕ → List A × List A
  unfolding take_ids
  split_request_ids remainder max_size = take_ids max_size req_fixed_overhead remainder []

-- Both variants of `populate_ack_ids` give the field and the container after it: a set of ids is
-- emptied, a set of packs is kept.
unfoldable pub populate_from_set : List Bytes → KeySet → List Bytes × KeySet
populate_from_set to [] = (to, [])
populate_from_set to (k ∷ from) = populate_from_set (to ++ k ∷ []) from

copy_ids : List Bytes → PackSet → List Bytes
copy_ids to [] = to
copy_ids to (p ∷ from) = copy_ids (to ++ pack_id p ∷ []) from

pub populate_from_packs : List Bytes → PackSet → List Bytes × PackSet
unfolding copy_ids
populate_from_packs to from = (copy_ids to from, from)
