-- ===== src/Containers/Maps.antt =====
-- The laws of the maps, in a form with no side condition.
use pubsuber.Base.{
  ◌≡◌, [], ◌∷◌, Bytes, Bytes_discrete, Option, none, some, ite, if_neg, All, length, ◌≢◌, ◌≤◌, refl,
  sym, subst, arith,
}
use pubsuber.Containers.{Map, lookup, insert_or_assign, emplace, erase, merge, write_through}

module _ {ℓ} {V : Type ℓ} where
  pub lookup-insert :
      (k j : Bytes) (v : V) (m : Map V)
      → lookup j (insert_or_assign k v m) ≡ ite (Bytes_discrete k j) (some v) (lookup j m)
  unfolding lookup insert_or_assign
  lookup-insert k j v [] = ground arith
  lookup-insert k j v ((i, w) ∷ m) = ground (arith, lookup-insert k j v m)

  -- What `a` holds, or else what `b` holds.
  abbrev pub or_else : Option V → Option V → Option V
  or_else (some v) b = some v
  or_else none b = b

  pub lookup-emplace :
      (k j : Bytes) (v : V) (m : Map V)
      → lookup j (emplace k v m) ≡ or_else (lookup j m) (ite (Bytes_discrete k j) (some v) none)
  unfolding lookup emplace
  lookup-emplace k j v [] = ground arith
  lookup-emplace k j v ((i, w) ∷ m) = ground (arith, lookup-emplace k j v m)

  pub lookup-erase :
      (k j : Bytes) (m : Map V) → lookup j (erase k m) ≡ ite (Bytes_discrete k j) none (lookup j m)
  unfolding lookup erase
  lookup-erase k j [] = ground arith
  lookup-erase k j ((i, w) ∷ m) = ground (arith, lookup-erase k j m)

  pub lookup-merge :
      (j : Bytes) (into from : Map V)
      → lookup j (merge into from) ≡ or_else (lookup j into) (lookup j from)
  unfolding lookup merge
  lookup-merge j into [] = ground arith
  lookup-merge j into ((k, v) ∷ from) =
      ground (arith, lookup-merge j (emplace k v into) from, lookup-emplace k j v into)

  -- An iterator's element gets the value; a key that is not there stays so.
  abbrev pub overwritten : V → Option V → Option V
  overwritten v none = none
  overwritten v (some w) = some v

  pub lookup-write_through :
      (k j : Bytes) (v : V) (m : Map V)
      → lookup j (write_through k v m)
        ≡ ite (Bytes_discrete k j) (overwritten v (lookup j m)) (lookup j m)
  unfolding lookup write_through
  lookup-write_through k j v [] = ground arith
  lookup-write_through k j v ((i, w) ∷ m) = ground (arith, lookup-write_through k j v m)

  -- A property of all keys, said of the list and of what is found.
  pub key_of_lookup {κ} :
      (P : Bytes → Type κ) (j : Bytes) (m : Map V) → All (λ p. P p.0) m → lookup j m ≢ none → P j
  unfolding lookup
  key_of_lookup P j [] h n = absurd (n refl)
  key_of_lookup P j ((i, w) ∷ m) h n = elim (Bytes_discrete j i) [
    | yes e ↦ subst P (sym e) h.0
    | no ne ↦ key_of_lookup P j m h.1 (λ e. n (rw (if_neg _ ne) e))
  ]

  pub All-keys {κ} :
      (P : Bytes → Type κ) (m : Map V)
      → ((j : Bytes) → lookup j m ≢ none → P j)
      → All (λ p. P p.0) m
  unfolding lookup
  All-keys P [] h = tt
  All-keys P ((i, w) ∷ m) h =
      (h i (λ e. ground arith), All-keys P m (λ j n. h j (λ e. ground arith)))

  pub length-write_through :
      (k : Bytes) (v : V) (m : Map V) → length (write_through k v m) ≡ length m
  unfolding write_through
  length-write_through k v [] = refl
  length-write_through k v ((i, w) ∷ m) = ground (arith, length-write_through k v m)

  pub length-erase-le : (k : Bytes) (m : Map V) → length (erase k m) ≤ length m
  unfolding erase
  length-erase-le k [] = omega arith
  length-erase-le k ((i, w) ∷ m) = ground (arith, length-erase-le k m)
