-- ===== src/ModAckIterator/Due.antt =====
-- `ModifyAckDeadlines` of pubsuber/src/ModAckIterator.cpp by the times of the deadlines.
use pubsuber.Base.{
  ◌^◌, ℕ, ◌+◌, ◌*◌, ◌<◌, ◌≡◌, ◌≢◌, inl, inr, refl, sym, ap, List, [], ◌∷◌, map, Bytes, none, some,
  Option, All, All-map, All-Occurs, Occurs, arith,
}
use pubsuber.Containers.{Map, lookup}
use pubsuber.Containers.Distinct.{IsDistinct}
use pubsuber.Double.{Float}
use pubsuber.Io.{Request, modify_ack_deadline, World, After, Requested}
use pubsuber.Io.Rules.{Holds-mono}
use pubsuber.Retriable.Spends.{Grown, Grown-mono}
use pubsuber.Algorithms.{PackSet, pack_id}
use pubsuber.Algorithms.Keys.{Occurs-of-lookup}
use pubsuber.ModAckIterator.State.{AckWatchDescriptor}
use pubsuber.ModAckIterator.Requests.{Session, modify_ack_deadlines}
use pubsuber.ModAckIterator.Sends.{SentFrom, AllCovered, extension}
use pubsuber.ModAckIterator.Extension.{
  due, lookup-due, lookup-due-none, ShortIds, pseudo_now, modify_ack_deadlines-Covered,
}

-- The id is watched, and its deadline is less than a millisecond more ahead of `now` than the grace
-- period in seconds, or has passed.
abbrev pub IsDue : ℕ → ℕ → Map AckWatchDescriptor → Bytes → Type 0
IsDue grace now ids k =
    (d : AckWatchDescriptor) × (lookup k ids ≡ some d)
    × (d.next_ack < now + (grace * 1000 + 1) * 10 ^ 6)

lookup-Occurs : (k e : Bytes) (m : PackSet) → Occurs (k, e) m → lookup k m ≢ none
unfolding lookup
lookup-Occurs k e [] o = absurd o
lookup-Occurs k e ((j, w) ∷ m) (inl f) = ground (arith, ap (λ p. p.0) f)
lookup-Occurs k e ((j, w) ∷ m) (inr o) = ground (arith, lookup-Occurs k e m o)

due-IsDue :
    (grace now : ℕ) (ids : Map AckWatchDescriptor)
    → IsDistinct ids
    → (p : Bytes × Bytes) → Occurs p (due grace now ids)
    → IsDue grace now ids (pack_id p)
due-IsDue grace now ids distinct (k, e) o = go (lookup k ids) refl
  where
    go : (v : Option AckWatchDescriptor) → lookup k ids ≡ v → IsDue grace now ids k
    go none f =
        absurd
          (lookup-Occurs k e (due grace now ids) o (lookup-due-none grace now ids k distinct f))
    go (some d) f =
        let found = lookup-due grace now ids k d distinct f in
        (d, f, ground (arith, lookup-Occurs k e (due grace now ids) o))

IsDue-due :
    (grace now : ℕ) (ids : Map AckWatchDescriptor) (k : Bytes)
    → IsDistinct ids
    → IsDue grace now ids k
    → Occurs (k, k) (due grace now ids)
IsDue-due grace now ids k distinct (d, f, soon) =
    Occurs-of-lookup k k (due grace now ids)
      (ground (arith, lookup-due grace now ids k d distinct f))

Occurs-map :
    {A B : Type 0} (f : A → B) (a : A) (xs : List A) → Occurs a xs → Occurs (f a) (map f xs)
Occurs-map f a [] o = absurd o
Occurs-map f a (x ∷ xs) (inl e) = inl (ap f e)
Occurs-map f a (x ∷ xs) (inr o) = inr (Occurs-map f a xs o)

module _ (fl : Float) (dl grace : ℕ) (s : Session fl) where
  -- The id is due when `ModifyAckDeadlines` reads the clock.
  abbrev pub DueNow : Bytes → Type 0
  DueNow = IsDue grace (pseudo_now fl s) s.it.keep_alive_ack_ids

  -- A request for the new deadline of ids that are due.
  abbrev pub ExtendsDue : Request → Type 0
  ExtendsDue r =
      (ids : List Bytes) × (r ≡ modify_ack_deadline s.it.subscription_name ids dl) × All DueNow ids

  -- The id was in a request for the new deadline.
  abbrev pub Extended : Bytes → World → Type 0
  Extended k w =
      (ids : List Bytes) × Requested (modify_ack_deadline s.it.subscription_name ids dl) w.log
      × Occurs k ids

  only_due :
      (t : Session fl)
      → IsDistinct s.it.keep_alive_ack_ids
      → SentFrom fl pack_id (extension dl) (due grace (pseudo_now fl s) s.it.keep_alive_ack_ids) s t
      → Grown ExtendsDue s.world t.world
  only_due t distinct sent =
      Grown-mono
        (λ r h. (
          map pack_id h.0,
          sym h.1,
          All-map pack_id DueNow h.0 (
              All-Occurs (λ p. DueNow (pack_id p)) h.0
                (λ p o.
                  due-IsDue grace (pseudo_now fl s) s.it.keep_alive_ack_ids distinct p (h.2 p o))),
        ))
        sent.0

  -- If the watched ids are distinct and none makes the 32-bit size of a request wrap around,
  -- `ModifyAckDeadlines` sends nothing but requests that set the new deadline for watched ids whose
  -- deadlines, at the clock reading, have passed or are ahead by less than the grace period and a
  -- millisecond. If it returns, each such id was in one of these requests.
  pub modify_ack_deadlines-Extends :
      IsDistinct s.it.keep_alive_ack_ids
      → ShortIds s.it.keep_alive_ack_ids
      → After
          (λ ms t. Grown ExtendsDue s.world t.world × ((k : Bytes) → DueNow k → Extended k t.world))
          (λ e t. Grown ExtendsDue s.world t.world)
          (modify_ack_deadlines fl dl grace s)
  modify_ack_deadlines-Extends distinct short =
      let packs : PackSet = due grace (pseudo_now fl s) s.it.keep_alive_ack_ids in
      Holds-mono
        (λ ms t.
          SentFrom fl pack_id (extension dl) packs s t × AllCovered fl (extension dl) packs s t)
        _ (λ e t. SentFrom fl pack_id (extension dl) packs s t) _ (Unit {0})
        (modify_ack_deadlines fl dl grace s) (modify_ack_deadlines-Covered fl dl grace s short)
        (λ ms t h. (
          only_due t distinct h.0,
          λ k is_due.
              let (batch, r, o) =
                h.1 (k, k)
                  (IsDue-due grace (pseudo_now fl s) s.it.keep_alive_ack_ids k distinct is_due) in
              (map pack_id batch, r, Occurs-map pack_id (k, k) batch o),
        ))
        (λ e t h. only_due t distinct h)
