-- ===== src/Message/Settled.antt =====
-- A message of pubsuber/src/MessageImpl.cpp tells its iterator exactly once what became of it.
use pubsuber.Base.{
  ℕ, ◌≡◌, refl, List, [], ◌∷◌, Bool, true, false, Option, none, some, if◌then◌else◌, ◌&&◌, ap, ◌∙◌,
  ap, ◌∙◌,
}
use mathlib.Core.Option
use pubsuber.Double.{Float}
use pubsuber.ModAckIterator.{ModAckIterator, DoneAction, nack, done}
use pubsuber.Message.{Held, after_done, settle, destroy}

when-true : {A : Type 0} (x y : A) (b : Bool) → b ≡ true → (if b then x else y) ≡ x
when-true x y b e = rw e refl

when-false : {A : Type 0} (x y : A) (b : Bool) → b ≡ false → (if b then x else y) ≡ y
when-false x y b e = rw e refl

module _ (fl : Float) where
  -- The life of a message: calls of `Ack()` and `Nack()`, each with its time, and the destructor.
  unfoldable pub live : List (DoneAction × ℕ) → ℕ → Held fl → Option (Held fl)
  live [] end h = destroy fl end h
  live ((action, now) ∷ calls) end h = Option.bind (settle fl action now h) (live calls end)

  -- What the iterator is told, and when: the first call, or a nack by the destructor.
  abbrev pub first_call : List (DoneAction × ℕ) → ℕ → DoneAction × ℕ
  first_call [] end = (nack, end)
  first_call (c ∷ calls) end = c

  -- The message does not hold the iterator any more.
  abbrev pub let_go : Held fl → ModAckIterator fl → Held fl
  let_go h it = record h { message = record h.message { attached = false }; it = it }

  -- What is left after one call of `Done`.
  abbrev pub settled : Held fl → DoneAction × ℕ → Option (Held fl)
  settled h (action, now) =
      Option.map (let_go h) (done fl h.message.ack_id h.message.receive_time now action h.it)

  settle-detached :
      (action : DoneAction) (now : ℕ) (h : Held fl)
      → h.message.attached ≡ false
      → settle fl action now h ≡ some h
  unfolding settle
  settle-detached action now h e =
      when-false _ _ (h.message.attached && h.alive) (ap (λ b. b && h.alive) e)

  settle-attached :
      (action : DoneAction) (now : ℕ) (h : Held fl)
      → h.message.attached ≡ true
      → h.alive ≡ true
      → settle fl action now h ≡ settled h (action, now)
  unfolding settle after_done
  settle-attached action now h e e' =
      when-true _ _ (h.message.attached && h.alive) (rw (e, e') refl)
      ∙ elim (done fl h.message.ack_id h.message.receive_time now action h.it) [
        | none ↦ refl
        | some it ↦ refl
      ]

  live-detached :
      (calls : List (DoneAction × ℕ)) (end : ℕ) (h : Held fl)
      → h.message.attached ≡ false
      → live calls end h ≡ some h
  unfolding live destroy Option.bind
  live-detached [] end h e = settle-detached nack end h e
  live-detached ((action, now) ∷ calls) end h e =
      ap (λ o. Option.bind o (live calls end)) (settle-detached action now h e)
      ∙ live-detached calls end h e

  live-settled :
      (calls : List (DoneAction × ℕ)) (end : ℕ) (h : Held fl) (o : Option (ModAckIterator fl))
      → Option.bind (Option.map (let_go h) o) (live calls end) ≡ Option.map (let_go h) o
  unfolding Option.bind
  live-settled calls end h none = refl
  live-settled calls end h (some it) = live-detached calls end (let_go h it) refl

  -- The iterator is told once what became of a message that is bound to an iterator whose owners
  -- still hold it: with the first call of `Ack()` or `Nack()`, at its time, or with a nack at the end
  -- of the message if there was none. The later calls and the end change nothing.
  pub live-first :
      (calls : List (DoneAction × ℕ)) (end : ℕ) (h : Held fl)
      → h.message.attached ≡ true
      → h.alive ≡ true
      → live calls end h ≡ settled h (first_call calls end)
  unfolding live destroy
  live-first [] end h e e' = settle-attached nack end h e e'
  live-first ((action, now) ∷ calls) end h e e' =
      ap (λ o. Option.bind o (live calls end)) (settle-attached action now h e e')
      ∙ live-settled calls end h (done fl h.message.ack_id h.message.receive_time now action h.it)
