-- ===== src/Containers/Distinct.antt =====
-- The keys of a map are distinct, and every operation keeps them so.
use pubsuber.Base.{◌≡◌, [], ◌∷◌, none, Bytes, arith}
use pubsuber.Containers.{Map, lookup, insert_or_assign, emplace, erase, merge, write_through}
use pubsuber.Containers.Maps.{lookup-insert, lookup-emplace, lookup-erase, lookup-write_through}

module _ {ℓ} {V : Type ℓ} where
  abbrev pub IsDistinct : Map V → Type ℓ
  IsDistinct [] = Unit
  IsDistinct ((k, v) ∷ m) = (lookup k m ≡ none) × IsDistinct m

  pub insert-IsDistinct :
      (k : Bytes) (v : V) (m : Map V) → IsDistinct m → IsDistinct (insert_or_assign k v m)
  unfolding lookup insert_or_assign
  insert-IsDistinct k v [] d = ground arith
  insert-IsDistinct k v ((j, w) ∷ m) d =
      ground (arith, insert-IsDistinct k v m d.1, lookup-insert k j v m)

  pub emplace-IsDistinct :
      (k : Bytes) (v : V) (m : Map V) → IsDistinct m → IsDistinct (emplace k v m)
  unfolding lookup emplace
  emplace-IsDistinct k v [] d = ground arith
  emplace-IsDistinct k v ((j, w) ∷ m) d =
      ground (arith, emplace-IsDistinct k v m d.1, lookup-emplace k j v m)

  pub erase-IsDistinct : (k : Bytes) (m : Map V) → IsDistinct m → IsDistinct (erase k m)
  unfolding erase
  erase-IsDistinct k [] d = tt
  erase-IsDistinct k ((j, w) ∷ m) d = ground (arith, erase-IsDistinct k m d.1, lookup-erase k j m)

  pub merge-IsDistinct : (into from : Map V) → IsDistinct into → IsDistinct (merge into from)
  unfolding merge
  merge-IsDistinct into [] d = d
  merge-IsDistinct into ((k, v) ∷ from) d =
      merge-IsDistinct (emplace k v into) from (emplace-IsDistinct k v into d)

  pub write_through-IsDistinct :
      (k : Bytes) (v : V) (m : Map V) → IsDistinct m → IsDistinct (write_through k v m)
  unfolding write_through
  write_through-IsDistinct k v [] d = tt
  write_through-IsDistinct k v ((j, w) ∷ m) d =
      ground (arith, write_through-IsDistinct k v m d.1, lookup-write_through k j v m)
