-- ===== src/Executor/AllSent.antt =====
-- `ProcessModAcks` of pubsuber/src/Executor.cpp over all iterators of the acknowledgement thread.
use pubsuber.Base.{
  ℕ, zero, suc, ◌+◌, ◌≤◌, ◌≡◌, ◌≢◌, refl, sym, ap, ◌∙◌, subst, List, [], ◌∷◌, Bytes, some,
  get_elem?, min, length, All, Occurs, arith,
}
use pubsuber.Double.{Float, IsIeee}
use pubsuber.Io.{
  Exception, World, Request, Outcome, returned, threw, blocked, terminated, Act, acknowledge, Holds,
  Ends, Requested,
}
use pubsuber.Io.Rules.{Holds-bind, Holds-mono}
use pubsuber.ModAckIterator.{ModAckIterator, so_many_milliseconds}
use pubsuber.ModAckIterator.Requests.{Session}
use pubsuber.ModAckIterator.Requests
use pubsuber.ModAckIterator.Calls.{replies_left}
use pubsuber.ModAckIterator.Drain.{Covered}
use pubsuber.ModAckIterator.Sends.{nack_request}
use pubsuber.ModAckIterator.Process.{Processed}
use pubsuber.ModAckIterator.Outcome.{AllSent}
use pubsuber.ModAckIterator.Ready.{IsReady, cost, process_mod_acks-AllSent}
use pubsuber.Executor.Rounds.{Running, put, on_iterator, process_each, process_mod_acks}

pub get-put_other :
    {A : Type 0} (i j : ℕ) (a : A) (xs : List A) → i ≢ j → get_elem? (put i a xs) j ≡ get_elem? xs j
unfolding put
get-put_other i j a [] ne = refl
get-put_other zero zero a (x ∷ xs) ne = absurd (ne refl)
get-put_other zero (suc j) a (x ∷ xs) ne = refl
get-put_other (suc i) zero a (x ∷ xs) ne = refl
get-put_other (suc i) (suc j) a (x ∷ xs) ne = get-put_other i j a xs (λ e. ne (ap suc e))

module _ (fl : Float) (Callback : Type 0) where
  -- The state after a call on the iterator at the place.
  abbrev after_call : ℕ → Running fl Callback → Session fl → Running fl Callback
  after_call place r s = record r {
    executor = record r.executor { store = put place s.it r.executor.store };
    world = s.world;
  }

  on_iterator-Holds :
      {A : Type 0} (P : A → Session fl → Type 0) (Q : Exception → Session fl → Type 0) (B : Type 0)
      (place : ℕ) (call : Act (Session fl) A) (r : Running fl Callback) (it : ModAckIterator fl)
      → get_elem? r.executor.store place ≡ some it
      → Holds P Q B (call (record { it = it; world = r.world }))
      → Holds
          (λ a r'. (s : Session fl) × P a s × (r' ≡ after_call place r s))
          (λ e r'. (s : Session fl) × Q e s × (r' ≡ after_call place r s))
          B
          (on_iterator fl Callback place call r)
  unfolding on_iterator
  on_iterator-Holds {A} P Q B place call r it found h =
      rw (found, Holds) (go (call (record { it = it; world = r.world })) h)
    where
      go :
          (o : Outcome (Session fl) A)
          → Holds P Q B o
          → Holds
              (λ a r'. (s : Session fl) × P a s × (r' ≡ after_call place r s))
              (λ e r'. (s : Session fl) × Q e s × (r' ≡ after_call place r s))
              B
              (elim o [
                | returned a s ↦ returned a (after_call place r s)
                | threw e s ↦ threw e (after_call place r s)
                | blocked ↦ blocked
                | terminated ↦ terminated
              ])
      go (returned a s) h = (s, h, refl)
      go (threw e s) h = (s, h, refl)
      go blocked h = h
      go terminated h = h

  -- The keeps of a run: what was requested stays in the log.
  abbrev Keeps : World → World → Type 0
  Keeps v w = (q : Request) → Requested q v.log → Requested q w.log

  -- The pending ids of the iterator were sent.
  abbrev pub IsSent : ModAckIterator fl → World → Type 0
  IsSent it w =
      ((k : Bytes) → Occurs k it.pending_ack_ids → Covered it.subscription_name acknowledge k w)
      × ((k : Bytes) → Occurs k it.pending_nack_ids → Covered it.subscription_name nack_request k w)

  IsSent-later : (it : ModAckIterator fl) (v w : World) → Keeps v w → IsSent it v → IsSent it w
  IsSent-later it v w keeps (acks, nacks) = (
    λ k o. let (batch, r, i) = acks k o in (batch, keeps _ r, i),
    λ k o. let (batch, r, i) = nacks k o in (batch, keeps _ r, i),
  )

  -- Each active iterator has a place of its own in the store and is ready, and `n` answers are enough.
  abbrev pub Loaded : List (Bytes × ℕ) → List (ModAckIterator fl) → ℕ → Type 0
  Loaded [] store n = Unit {0}
  Loaded ((name, place) ∷ active) store n =
      (it : ModAckIterator fl) × (get_elem? store place ≡ some it)
      × IsReady fl it
      × All (λ p. place ≢ p.1) active
      × (m : ℕ) × (cost fl it + m ≤ n)
      × Loaded active store m

  -- The pending ids of all active iterators were sent.
  abbrev pub AllActive :
      (ModAckIterator fl → Type 0) → List (Bytes × ℕ) → List (ModAckIterator fl) → Type 0
  AllActive P [] store = Unit {0}
  AllActive P ((name, place) ∷ active) store =
      ((it : ModAckIterator fl) → get_elem? store place ≡ some it → P it) × AllActive P active store

  Loaded-put :
      (place : ℕ) (it : ModAckIterator fl) (active : List (Bytes × ℕ))
      (store : List (ModAckIterator fl)) (n : ℕ)
      → All (λ p. place ≢ p.1) active
      → Loaded active store n
      → Loaded active (put place it store) n
  Loaded-put place it [] store n h l = tt
  Loaded-put place it ((name, other) ∷ active) store n h (it', found, ready, apart, m, room, rest) =
      (
        it',
        get-put_other place other it store h.0 ∙ found,
        ready,
        apart,
        m,
        room,
        Loaded-put place it active store m h.1 rest,
      )

  AllActive-put :
      (P : ModAckIterator fl → Type 0) (place : ℕ) (it : ModAckIterator fl)
      (active : List (Bytes × ℕ)) (store : List (ModAckIterator fl))
      → All (λ p. place ≢ p.1) active
      → AllActive P active (put place it store)
      → AllActive P active store
  AllActive-put P place it [] store h a = tt
  AllActive-put P place it ((name, other) ∷ active) store h (here, rest) = (
    λ it' found. here it' (get-put_other place other it store h.0 ∙ found),
    AllActive-put P place it active store h.1 rest,
  )

  abbrev Done : List (Bytes × ℕ) → Running fl Callback → Running fl Callback → Type 0
  Done active r r' =
      AllActive (λ it. IsSent it r'.world) active r.executor.store × Keeps r.world r'.world

  process_each-Ends :
      (active : List (Bytes × ℕ)) (n sleep : ℕ) (r : Running fl Callback)
      → IsIeee fl
      → Loaded active r.executor.store n
      → n ≤ length r.world.replies
      → Ends
          (λ ms r'. Done active r r')
          (λ e r'. Unit {0})
          (process_each fl Callback active sleep r)
  unfolding process_each
  process_each-Ends [] n sleep r ieee loaded room = (tt, λ q h. h)
  process_each-Ends ((name, place) ∷ active) n sleep r ieee (it, found, ready, apart, m, less, rest)
        room =
      let s₀ : Session fl = record { it = it; world = r.world } in
      Holds-bind _ (λ ms r'. Done ((name, place) ∷ active) r r') (λ e r'. Unit {0}) ⊥
        (on_iterator fl Callback place (Requests.process_mod_acks fl))
        (λ ms. process_each fl Callback active (min ms sleep)) r
        (Holds-mono _
          (λ ms r₁.
            (s : Session fl) × (AllSent fl s₀ ready.alive s
              × (replies_left fl s₀ ≤ replies_left fl s + cost fl it))
            × (r₁ ≡ after_call place r s))
          _ (λ e r'. Unit {0}) ⊥ _
          (on_iterator-Holds _ (λ e t. Processed fl s₀ t) ⊥ place (Requests.process_mod_acks fl) r
            it found (process_mod_acks-AllSent fl s₀ ready ieee (omega (arith, less, room))))
          (λ ms r₁ h. h) (λ e r' h. tt))
        (λ ms r₁ h.
          let (s, (all, used), same) = h in
          subst
            (λ r₁.
              Ends (λ ms r'. Done ((name, place) ∷ active) r r') (λ e r'. Unit {0})
                (process_each fl Callback active (min ms sleep) r₁))
            (sym same)
            (Holds-mono (λ ms r'. Done active (after_call place r s) r') _ (λ e r'. Unit {0}) _ ⊥
              (process_each fl Callback active (min ms sleep) (after_call place r s))
              (process_each-Ends active m (min ms sleep) (after_call place r s) ieee
                (Loaded-put place s.it active r.executor.store m apart rest)
                (omega (arith, less, room, used)))
              (λ ms r' done. (
                (
                  λ it' found'.
                      let mine : it ≡ it' = cc in
                      subst (λ i. IsSent i r'.world) mine
                        (IsSent-later it s.world r'.world done.1 (all.1, all.2)),
                  AllActive-put (λ i. IsSent i r'.world) place s.it active r.executor.store apart
                      done.0,
                ),
                λ q h. done.1 q (all.0.grown.keeps q h),
              ))
              (λ e r' u. tt)))

  -- Each active iterator of the acknowledgement thread has a place of its own in the store and is ready,
  -- and the server gives as many answers as the tries of one call for each pending and each watched id
  -- of all of them. Then `ProcessModAcks` of the executor throws an exception, or it returns and every
  -- pending id of every active iterator was in a request of its kind.
  pub process_mod_acks-AllActive :
      (n : ℕ) (r : Running fl Callback)
      → IsIeee fl
      → Loaded r.executor.ack_thread.active_iterators r.executor.store n
      → n ≤ length r.world.replies
      → Ends
          (λ ms r'.
            AllActive
              (λ it. IsSent it r'.world)
              r.executor.ack_thread.active_iterators
              r.executor.store)
          (λ e r'. Unit {0})
          (process_mod_acks fl Callback r)
  unfolding process_mod_acks
  process_mod_acks-AllActive n r ieee loaded room =
      let active : List (Bytes × ℕ) = r.executor.ack_thread.active_iterators in
      Holds-mono (λ ms r'. Done active r r') _ (λ e r'. Unit {0}) _ ⊥
        (process_each fl Callback active so_many_milliseconds r)
        (process_each-Ends active n so_many_milliseconds r ieee loaded room) (λ ms r' done. done.0)
        (λ e r' u. tt)
