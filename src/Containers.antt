-- ===== src/Containers.antt =====
-- The standard containers of pubsuber/src/ContainerTypes.h and Executor.h as the source uses them.
-- `std::unordered_map<std::string, V>` is a list of pairs and `std::unordered_set<std::string>` a
-- list of keys. The order of a list is the container's order of iteration, which the standard leaves
-- open. A new element goes to the end.
pub mod Maps
pub mod Sets
pub mod Distinct
use pubsuber.Base.{List, [], ◌∷◌, Bytes, Bytes_discrete, Bool, true, false, Option, none, some, ite}

abbrev pub Map {ℓ} : Type ℓ → Type ℓ
Map V = List (Bytes × V)

abbrev pub KeySet : Type 0
KeySet = List Bytes

module _ {ℓ} {V : Type ℓ} where
  -- `m.find(k)`: `none` is `m.end()`.
  unfoldable pub lookup : Bytes → Map V → Option V
  lookup k [] = none
  lookup k ((j, v) ∷ m) = ite (Bytes_discrete k j) (some v) (lookup k m)

  unfoldable pub insert_or_assign : Bytes → V → Map V → Map V
  insert_or_assign k v [] = (k, v) ∷ []
  insert_or_assign k v ((j, w) ∷ m) =
      ite (Bytes_discrete k j) ((j, v) ∷ m) ((j, w) ∷ insert_or_assign k v m)

  -- `it->second = v` through an iterator to the element with key `k`.
  unfoldable pub write_through : Bytes → V → Map V → Map V
  write_through k v [] = []
  write_through k v ((j, w) ∷ m) =
      ite (Bytes_discrete k j) ((j, v) ∷ m) ((j, w) ∷ write_through k v m)

  -- An element whose key is there already is not inserted.
  unfoldable pub emplace : Bytes → V → Map V → Map V
  emplace k v [] = (k, v) ∷ []
  emplace k v ((j, w) ∷ m) = ite (Bytes_discrete k j) ((j, w) ∷ m) ((j, w) ∷ emplace k v m)

  -- `m.erase(k)`.
  unfoldable pub erase : Bytes → Map V → Map V
  erase k [] = []
  erase k ((j, v) ∷ m) = ite (Bytes_discrete k j) (erase k m) ((j, v) ∷ erase k m)

  -- `into.merge(from)`: the nodes of `from` whose key `into` lacks.
  unfoldable pub merge : Map V → Map V → Map V
  unfolding emplace
  merge into [] = into
  merge into ((k, v) ∷ from) = merge (emplace k v into) from

-- `s.find(k) != s.end()`.
unfoldable pub contains : Bytes → KeySet → Bool
contains k [] = false
contains k (j ∷ s) = ite (Bytes_discrete k j) true (contains k s)

unfoldable pub set_emplace : Bytes → KeySet → KeySet
set_emplace k [] = k ∷ []
set_emplace k (j ∷ s) = ite (Bytes_discrete k j) (j ∷ s) (j ∷ set_emplace k s)

unfoldable pub set_erase : Bytes → KeySet → KeySet
set_erase k [] = []
set_erase k (j ∷ s) = ite (Bytes_discrete k j) (set_erase k s) (j ∷ set_erase k s)
