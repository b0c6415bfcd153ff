-- ===== src/Executor/Starved.antt =====
-- `ProcessModAcks` of pubsuber/src/Executor.cpp where the service refuses for one of the subscriptions.
mod Tests
use pubsuber.Base.{
  ℕ, ◌≡◌, ◌≢◌, refl, sym, ap, ◌∙◌, subst, List, [], ◌∷◌, ◌++◌, Bytes, Option, none, some, get_elem?,
  min, All,
}
use pubsuber.Double.{Float}
use pubsuber.Io.{Exception, Outcome, returned, threw, blocked, terminated, Act, After}
use pubsuber.Io.Rules.{Holds-bind, Holds-mono}
use pubsuber.ModAckIterator.{ModAckIterator, so_many_milliseconds}
use pubsuber.ModAckIterator.Requests.{Session}
use pubsuber.ModAckIterator.Requests
use pubsuber.Executor.Rounds.{Running, put, on_iterator, process_each, process_mod_acks}
use pubsuber.Executor.AllSent.{get-put_other}

module _ (fl : Float) (Callback : Type 0) where
  -- The iterator at the place is as it was.
  abbrev IsLeft : ℕ → Running fl Callback → Running fl Callback → Type 0
  IsLeft q r r' = get_elem? r'.executor.store q ≡ get_elem? r.executor.store q

  abbrev Leaves : {A : Type 0} → ℕ → Running fl Callback → Outcome (Running fl Callback) A → Type 0
  Leaves q r = After (λ a r'. IsLeft q r r') (λ e r'. IsLeft q r r')

  on_iterator-Leaves :
      {A : Type 0} (q place : ℕ) (call : Act (Session fl) A) (r : Running fl Callback)
      → q ≢ place
      → Leaves q r (on_iterator fl Callback place call r)
  unfolding on_iterator
  on_iterator-Leaves {A} q place call r ne = at (get_elem? r.executor.store place)
    where
      stored : Session fl → Running fl Callback
      stored s = record r {
        executor = record r.executor { store = put place s.it r.executor.store };
        world = s.world;
      }

      ended : Outcome (Session fl) A → Outcome (Running fl Callback) A
      ended o = elim o [
        | returned a s ↦ returned a (stored s)
        | threw e s ↦ threw e (stored s)
        | blocked ↦ blocked
        | terminated ↦ terminated
      ]

      go : (o : Outcome (Session fl) A) → Leaves q r (ended o)
      go (returned a s) = get-put_other place q s.it r.executor.store (λ e. ne (sym e))
      go (threw e s) = get-put_other place q s.it r.executor.store (λ e. ne (sym e))
      go blocked = tt
      go terminated = tt

      at :
          (o : Option (ModAckIterator fl))
          → Leaves q r (elim o [
            | none ↦ terminated
            | some it ↦ ended (call (record { it = it; world = r.world }))
          ])
      at none = tt
      at (some it) = go (call (record { it = it; world = r.world }))

  process_each-Leaves :
      (q : ℕ) (active : List (Bytes × ℕ)) (sleep : ℕ) (r : Running fl Callback)
      → All (λ p. q ≢ p.1) active
      → Leaves q r (process_each fl Callback active sleep r)
  unfolding process_each
  process_each-Leaves q [] sleep r h = refl
  process_each-Leaves q ((name, place) ∷ active) sleep r h =
      Holds-bind (λ ms r'. IsLeft q r r') (λ ms r'. IsLeft q r r') (λ e r'. IsLeft q r r')
        (Unit {0}) (on_iterator fl Callback place (Requests.process_mod_acks fl))
        (λ ms. process_each fl Callback active (min ms sleep)) r
        (on_iterator-Leaves q place (Requests.process_mod_acks fl) r h.0)
        (λ ms r₁ left.
          Holds-mono (λ ms r'. IsLeft q r₁ r') _ (λ e r'. IsLeft q r₁ r') _ (Unit {0})
            (process_each fl Callback active (min ms sleep) r₁)
            (process_each-Leaves q active (min ms sleep) r₁ h.1) (λ ms' r' k. k ∙ left)
            (λ e r' k. k ∙ left))

  -- What comes after the call on one iterator.
  abbrev and_then :
      ℕ → List (Bytes × ℕ) → Outcome (Running fl Callback) ℕ → Outcome (Running fl Callback) ℕ
  and_then sleep active o = elim o [
    | returned ms r ↦ process_each fl Callback active (min ms sleep) r
    | threw e r ↦ threw e r
    | blocked ↦ blocked
    | terminated ↦ terminated
  ]

  process_each_stops :
      (front behind : List (Bytes × ℕ)) (name : Bytes) (place sleep ms : ℕ)
      (r r₁ r₂ : Running fl Callback) (e : Exception)
      → process_each fl Callback front sleep r ≡ returned ms r₁
      → on_iterator fl Callback place (Requests.process_mod_acks fl) r₁ ≡ threw e r₂
      → process_each fl Callback (front ++ ((name, place) ∷ behind)) sleep r ≡ threw e r₂
  unfolding process_each
  process_each_stops [] behind name place sleep ms r r₁ r₂ e before failed =
      let same : r ≡ r₁ = cc in rw same (ap (and_then sleep behind) failed)
  process_each_stops ((n, p) ∷ front) behind name place sleep ms r r₁ r₂ e before failed =
      go (on_iterator fl Callback p (Requests.process_mod_acks fl) r) before (λ ms' r' h.
        process_each_stops front behind name place (min ms' sleep) ms r' r₁ r₂ e h failed)
    where
      go :
          (o : Outcome (Running fl Callback) ℕ)
          → and_then sleep front o ≡ returned ms r₁
          → ((ms' : ℕ) (r' : Running fl Callback)
              → and_then sleep front (returned ms' r') ≡ returned ms r₁
              → and_then sleep (front ++ ((name, place) ∷ behind)) (returned ms' r') ≡ threw e r₂)
          → and_then sleep (front ++ ((name, place) ∷ behind)) o ≡ threw e r₂
      go (returned ms' r') h later = later ms' r' h
      go (threw x r') h later = absurd (cc)
      go blocked h later = absurd (cc)
      go terminated h later = absurd (cc)

  -- If the iterators in front of one return and that one throws, then `ProcessModAcks` ends with its
  -- exception and its world: no request is sent for the iterators behind it. Each iterator whose place is
  -- not that of one in front or of the failing one is as it was.
  pub process_mod_acks-starved :
      (front behind : List (Bytes × ℕ)) (name : Bytes) (place ms : ℕ)
      (r r₁ r₂ : Running fl Callback) (e : Exception)
      → r.executor.ack_thread.active_iterators ≡ front ++ ((name, place) ∷ behind)
      → process_each fl Callback front so_many_milliseconds r ≡ returned ms r₁
      → on_iterator fl Callback place (Requests.process_mod_acks fl) r₁ ≡ threw e r₂
      → (process_mod_acks fl Callback r ≡ threw e r₂)
        × ((q : ℕ)
            → All (λ p. q ≢ p.1) front
            → q ≢ place
            → get_elem? r₂.executor.store q ≡ get_elem? r.executor.store q)
  unfolding process_mod_acks
  process_mod_acks-starved front behind name place ms r r₁ r₂ e active before failed = (
    ap (λ all. process_each fl Callback all so_many_milliseconds r) active
        ∙ process_each_stops front behind name place so_many_milliseconds ms r r₁ r₂ e before
            failed,
    λ q others other.
        subst (Leaves q r₁) failed
          (on_iterator-Leaves q place (Requests.process_mod_acks fl) r₁ other)
        ∙ subst (Leaves q r) before (process_each-Leaves q front so_many_milliseconds r others),
  )
