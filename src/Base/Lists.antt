-- ===== src/Base/Lists.antt =====
-- Lists measured and indexed by native numbers, predicates on all elements, and membership.
use Prim.Native.Nat.{ℕ, zero, suc, ◌+◌}
use mathlib.Core.Path.{◌≡◌, refl, subst}
use mathlib.Core.Logic.{◌⊎◌, inl, inr}
use mathlib.Core.List.{List, [], ◌∷◌, ◌++◌, map}
use mathlib.Core.Option.{Option, none, some}
use native.Mathlib.Omega.{arith}

module _ {ℓ} {A : Type ℓ} where
  abbrev pub length : List A → ℕ
  length [] = 0
  length (x ∷ xs) = suc (length xs)

  abbrev pub get_elem? : List A → ℕ → Option A
  get_elem? [] i = none
  get_elem? (x ∷ xs) zero = some x
  get_elem? (x ∷ xs) (suc i) = get_elem? xs i

  -- Every element has the property.
  abbrev pub All {κ} : (A → Type κ) → List A → Type κ
  All P [] = Unit
  All P (x ∷ xs) = P x × All P xs

  pub length-append : (xs ys : List A) → length (xs ++ ys) ≡ length xs + length ys
  length-append [] ys = omega arith
  length-append (x ∷ xs) ys = omega (arith, length-append xs ys)

-- `a` stands in the list: an equation for each place where it can stand.
abbrev pub Occurs : {A : Type 0} → A → List A → Type 0
Occurs a [] = ⊥
Occurs a (x ∷ xs) = (x ≡ a) ⊎ Occurs a xs

pub All-map :
    {A B : Type 0} (f : A → B) (P : B → Type 0) (xs : List A)
    → All (λ x. P (f x)) xs
    → All P (map f xs)
All-map f P [] h = tt
All-map f P (x ∷ xs) h = (h.0, All-map f P xs h.1)

pub All-Occurs :
    {A : Type 0} (P : A → Type 0) (xs : List A) → ((a : A) → Occurs a xs → P a) → All P xs
All-Occurs P [] h = tt
All-Occurs P (x ∷ xs) h = (h x (inl refl), All-Occurs P xs (λ a o. h a (inr o)))

pub Occurs-All : {A : Type 0} (P : A → Type 0) (a : A) (xs : List A) → All P xs → Occurs a xs → P a
Occurs-All P a [] h o = absurd o
Occurs-All P a (x ∷ xs) h (inl e) = subst P e h.0
Occurs-All P a (x ∷ xs) h (inr o) = Occurs-All P a xs h.1 o
