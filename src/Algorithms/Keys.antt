-- ===== src/Algorithms/Keys.antt =====
-- What `erase_keys`, `give_me_the_keys` and `populate_ack_ids` of pubsuber/src/Algorithms.h do to the
-- ids of a container.
use mathlib.Core.List.{append-nil, append_assoc}
use pubsuber.Base.{
  ◌≡◌, refl, List, [], ◌∷◌, ◌++◌, map, Bytes, Bool, true, false, Option, none, some, if◌then◌else◌,
  arith, All, Occurs, length, suc, ◌+◌, ◌≤◌,
}
use pubsuber.Containers.{Map, KeySet, lookup, erase, emplace, contains}
use pubsuber.Containers.Distinct.{IsDistinct, erase-IsDistinct}
use pubsuber.Containers.Maps.{length-erase-le, lookup-erase, lookup-emplace, or_else}
use pubsuber.Algorithms.{
  PackSet, pack_id, erase_keys, give_me_the_keys, populate_from_set, populate_from_packs, copy_ids,
  give_keys, find_entry, insert_entry,
}

module _ {ℓ} {V : Type ℓ} where
  -- After `erase_keys` exactly the keys of `what` are gone; every other element is as it was.
  pub lookup-erase_keys :
      (j : Bytes) (from : Map V) (what : KeySet)
      → lookup j (erase_keys from what) ≡ (if contains j what then none else lookup j from)
  unfolding erase_keys contains
  lookup-erase_keys j from [] = refl
  lookup-erase_keys j from (k ∷ what) =
      ground (arith, lookup-erase_keys j (erase k from) what, lookup-erase k j from)

-- All ids of the set go to the field, behind what it holds, and the set is empty.
pub populate_from_set_lem :
    (to : List Bytes) (from : KeySet) → populate_from_set to from ≡ (to ++ from, [])
unfolding populate_from_set
populate_from_set_lem to [] = rw (append-nil to)
populate_from_set_lem to (k ∷ from) =
    rw (populate_from_set_lem (to ++ k ∷ []) from, append_assoc to (k ∷ []) from)

copy_ids_lem : (to : List Bytes) (from : PackSet) → copy_ids to from ≡ to ++ map pack_id from
unfolding copy_ids
copy_ids_lem to [] = rw (append-nil to)
copy_ids_lem to (p ∷ from) =
    rw (
      copy_ids_lem (to ++ pack_id p ∷ []) from,
      append_assoc to (pack_id p ∷ []) (map pack_id from),
    )

-- The ids of the packs go to the field, and the packs stay.
pub populate_from_packs_lem :
    (to : List Bytes) (from : PackSet)
    → populate_from_packs to from ≡ (to ++ map pack_id from, from)
unfolding populate_from_packs
populate_from_packs_lem to from = rw (copy_ids_lem to from)

pub erase_keys-IsDistinct {ℓ} :
    {V : Type ℓ} (from : Map V) (what : KeySet)
    → IsDistinct from
    → IsDistinct (erase_keys from what)
unfolding erase_keys
erase_keys-IsDistinct from [] d = d
erase_keys-IsDistinct from (k ∷ what) d =
    erase_keys-IsDistinct (erase k from) what (erase-IsDistinct k from d)

-- A closure whose answer depends on the element alone, whatever it writes.
module _ {ℓ} {V : Type ℓ} {S : Type 0} (pred : V → S → Bool × S) (answer : V → Bool)
    (answers : (v : V) (s : S) → (pred v s).0 ≡ answer v) where
  -- The entry that is taken for a key: its own, if the element is there and is taken.
  abbrev pub taken_entry : Bytes → Option V → Option Bytes
  taken_entry j none = none
  taken_entry j (some v) = if answer v then some j else none

  give_keys_lem :
      (j : Bytes) (ids rest : Map V) (to_modify : PackSet) (s : S)
      → IsDistinct rest
      → ((k : Bytes) (v : V) → lookup k rest ≡ some v → lookup k ids ≡ some v)
      → lookup j (give_keys pred ids rest to_modify s).0
        ≡ or_else (lookup j to_modify) (taken_entry j (lookup j rest))
  unfolding give_keys lookup
  give_keys_lem j ids [] to_modify s d inside = ground arith
  give_keys_lem j ids ((k, v) ∷ rest) to_modify s d inside =
      let later : (k' : Bytes) (v' : V) → lookup k' rest ≡ some v' → lookup k' ids ≡ some v' =
        λ k' v' e. inside k' v' (ground arith) in
      let here : lookup k ids ≡ some v = inside k v (ground arith) in
      let s' : S = (pred v s).1 in
      ground (
        arith,
        here,
        answers v s,
        lookup-emplace k j k to_modify,
        give_keys_lem j ids rest (emplace k k to_modify) s' d.1 later,
        give_keys_lem j ids rest to_modify s' d.1 later,
      )

  -- If the answer of the closure depends on the element alone and the keys are distinct,
  -- `give_me_the_keys` takes exactly the ids of the elements for which the closure answers true,
  -- each with an iterator to its own element.
  pub give_me_the_keys_lem :
      (j : Bytes) (ids : Map V) (s : S)
      → IsDistinct ids
      → lookup j (give_me_the_keys pred ids [] s).0 ≡ taken_entry j (lookup j ids)
  unfolding give_me_the_keys lookup
  give_me_the_keys_lem j ids s d = give_keys_lem j ids ids [] s d (λ k v e. e)

-- The ids that are taken are ids of the map, and no more than it has.
module _ {ℓ} {V : Type ℓ} {S : Type 0} (pred : V → S → Bool × S) (P : Bytes → Type 0) where
  emplace-All :
      (k e : Bytes) (m : PackSet) → P k → All (λ p. P p.0) m → All (λ p. P p.0) (emplace k e m)
  unfolding emplace
  emplace-All k e [] h a = (h, tt)
  emplace-All k e ((j, w) ∷ m) h a = ground (arith, emplace-All k e m h a.1)

  length-emplace-le : (k e : Bytes) (m : PackSet) → length (emplace k e m) ≤ suc (length m)
  unfolding emplace
  length-emplace-le k e [] = omega arith
  length-emplace-le k e ((j, w) ∷ m) = ground (arith, length-emplace-le k e m)

  insert_entry-All :
      (k : Bytes) (e : Option Bytes) (taken : Bool) (m : PackSet)
      → P k
      → All (λ p. P p.0) m
      → All (λ p. P p.0) (if taken then insert_entry k e m else m)
        × (length (if taken then insert_entry k e m else m) ≤ suc (length m))
  unfolding insert_entry
  insert_entry-All k none true m h a = (a, omega arith)
  insert_entry-All k (some e) true m h a = (emplace-All k e m h a, length-emplace-le k e m)
  insert_entry-All k e false m h a = (a, omega arith)

  give_keys-All :
      (ids rest : Map V) (to_modify : PackSet) (s : S)
      → All (λ p. P p.0) rest
      → All (λ p. P p.0) to_modify
      → All (λ p. P p.0) (give_keys pred ids rest to_modify s).0
        × (length (give_keys pred ids rest to_modify s).0 ≤ length to_modify + length rest)
  unfolding give_keys
  give_keys-All ids [] to_modify s h a = (a, omega arith)
  give_keys-All ids ((k, v) ∷ rest) to_modify s h a =
      let (taken, s') = pred v s in
      let entry : Option Bytes = find_entry k (lookup k ids) in
      let here : All (λ p. P p.0) (if taken then insert_entry k entry to_modify else to_modify)
          × (length (if taken then insert_entry k entry to_modify else to_modify)
              ≤ suc (length to_modify)) =
        insert_entry-All k entry taken to_modify h.0 a in
      let later : All (λ p. P p.0)
            (give_keys pred ids rest (if taken then insert_entry k entry to_modify else to_modify)
              s').0
          × (length
                (give_keys pred ids rest
                  (if taken then insert_entry k entry to_modify else to_modify) s').0
              ≤ length (if taken then insert_entry k entry to_modify else to_modify)
                + length rest) =
        give_keys-All ids rest (if taken then insert_entry k entry to_modify else to_modify) s' h.1
          here.0 in
      (later.0, omega (arith, later.1, here.1))

  pub give_me_the_keys-All :
      (ids : Map V) (s : S)
      → All (λ p. P p.0) ids
      → All (λ p. P p.0) (give_me_the_keys pred ids [] s).0
        × (length (give_me_the_keys pred ids [] s).0 ≤ length ids)
  unfolding give_me_the_keys
  give_me_the_keys-All ids s h =
      let r : All (λ p. P p.0) (give_keys pred ids ids [] s).0
          × (length (give_keys pred ids ids [] s).0 ≤ length {A = Bytes × Bytes} [] + length ids) =
        give_keys-All ids ids [] s h tt in
      (r.0, omega (arith, r.1))

-- An element that is found stands in the list.
pub Occurs-of-lookup : (k : Bytes) (e : Bytes) (m : PackSet) → lookup k m ≡ some e → Occurs (k, e) m
unfolding lookup
Occurs-of-lookup k e [] h = cc
Occurs-of-lookup k e ((j, w) ∷ m) h = ground (arith, Occurs-of-lookup k e m)

pub length-erase_keys-le {ℓ} :
    {V : Type ℓ} (from : Map V) (what : KeySet) → length (erase_keys from what) ≤ length from
unfolding erase_keys
length-erase_keys-le from [] = omega arith
length-erase_keys-le from (k ∷ what) =
    omega (arith, length-erase_keys-le (erase k from) what, length-erase-le k from)
