-- ===== src/Io/Rules.antt =====
-- How statements on the end of a call combine.
use pubsuber.Base.{◌≡◌, refl}
use pubsuber.Io.{Exception, Outcome, returned, threw, blocked, terminated, Act, ◌>>=◌, Holds}

-- The second action starts where the first one ends.
pub Holds-bind :
    {S A C : Type 0} (P : A → S → Type 0) (P' : C → S → Type 0) (Q : Exception → S → Type 0)
    (B : Type 0) (m : Act S A) (k : A → Act S C) (s : S)
    → Holds P Q B (m s)
    → ((a : A) (s' : S) → P a s' → Holds P' Q B (k a s'))
    → Holds P' Q B ((m >>= k) s)
Holds-bind {S} {A} {C} P P' Q B m k s h f = go (m s) h
  where
    go :
        (o : Outcome S A)
        → Holds P Q B o
        → Holds P' Q B (elim o [
          | returned a s' ↦ k a s'
          | threw e s' ↦ threw e s'
          | blocked ↦ blocked
          | terminated ↦ terminated
        ])
    go (returned a s') h = f a s' h
    go (threw e s') h = h
    go blocked h = h
    go terminated h = h

pub Holds-mono :
    {S A : Type 0} (P P' : A → S → Type 0) (Q Q' : Exception → S → Type 0) (B : Type 0)
    (o : Outcome S A)
    → Holds P Q B o
    → ((a : A) (s : S) → P a s → P' a s)
    → ((e : Exception) (s : S) → Q e s → Q' e s)
    → Holds P' Q' B o
Holds-mono P P' Q Q' B (returned a s) h f g = f a s h
Holds-mono P P' Q Q' B (threw e s) h f g = g e s h
Holds-mono P P' Q Q' B blocked h f g = h
Holds-mono P P' Q Q' B terminated h f g = h

-- Two statements on one call, where the first says whether it ends.
pub Holds-and :
    {S A : Type 0} (P P' : A → S → Type 0) (Q Q' : Exception → S → Type 0) (B B' : Type 0)
    (o : Outcome S A)
    → Holds P Q B o
    → Holds P' Q' B' o
    → Holds (λ a s. P a s × P' a s) (λ e s. Q e s × Q' e s) B o
Holds-and P P' Q Q' B B' (returned a s) h k = (h, k)
Holds-and P P' Q Q' B B' (threw e s) h k = (h, k)
Holds-and P P' Q Q' B B' blocked h k = h
Holds-and P P' Q Q' B B' terminated h k = h

pub bind_assoc :
    {S A B C : Type 0} (m : Act S A) (k : A → Act S B) (l : B → Act S C) (s : S)
    → ((m >>= k) >>= l) s ≡ (m >>= λ a. k a >>= l) s
bind_assoc {S} {A} {B} {C} m k l s = go (m s)
  where
    first : Outcome S A → Outcome S B
    first o = elim o [
      | returned a s' ↦ k a s'
      | threw e s' ↦ threw e s'
      | blocked ↦ blocked
      | terminated ↦ terminated
    ]

    both : Outcome S B → Outcome S C
    both o = elim o [
      | returned b s' ↦ l b s'
      | threw e s' ↦ threw e s'
      | blocked ↦ blocked
      | terminated ↦ terminated
    ]

    go :
        (o : Outcome S A)
        → both (first o) ≡ elim o [
          | returned a s' ↦ both (k a s')
          | threw e s' ↦ threw e s'
          | blocked ↦ blocked
          | terminated ↦ terminated
        ]
    go (returned a s') = refl
    go (threw e s') = refl
    go blocked = refl
    go terminated = refl
