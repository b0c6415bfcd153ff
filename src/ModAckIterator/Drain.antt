-- ===== src/ModAckIterator/Drain.antt =====
-- The loop of `SendAcks`, `SendNacks` and `ModifyAckDeadlines` in pubsuber/src/ModAckIterator.cpp: it
-- sends every id, in requests of bounded size.
use pubsuber.Base.{
  ℕ, zero, suc, ◌<◌, ◌≡◌, ◌⊎◌, inl, inr, refl, sym, subst, ◌∙◌, List, [], ◌∷◌, ◌++◌, Bytes, All,
  Occurs,
}
use pubsuber.Double.{Float}
use pubsuber.Io.{Exception, Request, World, Act, Holds, After, Requested}
use pubsuber.Io.Rules.{Holds-bind, Holds-mono}
use pubsuber.Retriable.Spends.{Grown, Grown-refl, Grown-trans, Grown-mono}
use pubsuber.Algorithms.{split_request_ids}
use pubsuber.Algorithms.Split.{IsShort, request_size, split-append, split_fits, All-append_right}
use pubsuber.ModAckIterator.Requests.{Session, max_payload, drain}
use pubsuber.ModAckIterator.Calls.{SentBy, Same, Same-trans, Same-of-eq, SendsOnly}

module _ (fl : Float) {A : Type 0} (id : A → Bytes) (handle : List A → Act (Session fl) (Unit {0}))
    (I : ℕ → List A → Session fl → Type 0) (Q : Exception → Session fl → Type 0) (B : Type 0) where
  -- The invariant rule: what the loop's two ways out and its body have to show.
  pub record Rule : Type 0 where
    pub out : (x : A) (xs : List A) (s : Session fl) → I zero (x ∷ xs) s → B
    pub step :
        (n : ℕ) (x : A) (xs : List A) (s : Session fl)
        → I (suc n) (x ∷ xs) s
        → let (rest, to_send) = split_request_ids id (x ∷ xs) max_payload in
          Holds (λ u s'. I n rest s') Q B (handle to_send s)

  pub drain-Holds :
      Rule
      → (rounds : ℕ) (ids : List A) (s : Session fl) → I rounds ids s
      → Holds (λ u s'. (n : ℕ) × I n [] s') Q B (drain fl id handle rounds ids s)
  unfolding drain
  drain-Holds rule zero [] s h = (zero, h)
  drain-Holds rule (suc n) [] s h = (suc n, h)
  drain-Holds rule zero (x ∷ ids) s h = rule.out x ids s h
  drain-Holds rule (suc n) (x ∷ ids) s h =
      let (rest, to_send) = split_request_ids id (x ∷ ids) max_payload in
      Holds-bind (λ u s'. I n rest s') (λ u s'. (n : ℕ) × I n [] s') Q B (handle to_send)
        (λ u. drain fl id handle n rest) s (rule.step n x ids s h)
        (λ u s' k. drain-Holds rule n rest s' k)

Occurs-append_left : {A : Type 0} (a : A) (xs ys : List A) → Occurs a xs → Occurs a (xs ++ ys)
Occurs-append_left a [] ys h = absurd h
Occurs-append_left a (x ∷ xs) ys (inl e) = inl e
Occurs-append_left a (x ∷ xs) ys (inr h) = inr (Occurs-append_left a xs ys h)

Occurs-append_right : {A : Type 0} (a : A) (xs ys : List A) → Occurs a ys → Occurs a (xs ++ ys)
Occurs-append_right a [] ys h = h
Occurs-append_right a (x ∷ xs) ys h = inr (Occurs-append_right a xs ys h)

Occurs-append :
    {A : Type 0} (a : A) (xs ys : List A) → Occurs a (xs ++ ys) → Occurs a xs ⊎ Occurs a ys
Occurs-append a [] ys h = inr h
Occurs-append a (x ∷ xs) ys (inl e) = inl (inl e)
Occurs-append a (x ∷ xs) ys (inr h) = elim (Occurs-append a xs ys h) [
  | inl k ↦ inl (inr k)
  | inr k ↦ inr k
]

module _ {A : Type 0} (name : Bytes) (request : Bytes → List A → Request) where
  -- A request for some of the ids, smaller than the maximum.
  abbrev pub FromBatch : (A → Bytes) → List A → Request → Type 0
  FromBatch id ids r =
      (batch : List A) × (request name batch ≡ r)
      × ((a : A) → Occurs a batch → Occurs a ids)
      × ((batch ≡ []) ⊎ (request_size id batch < max_payload))

  -- The id was in some request.
  abbrev pub Covered : A → World → Type 0
  Covered a w = (batch : List A) × Requested (request name batch) w.log × Occurs a batch

module _ (fl : Float) {A : Type 0} (id : A → Bytes) (handle : List A → Act (Session fl) (Unit {0}))
    (name : Bytes) (request : Bytes → List A → Request) where
  -- The body of the loop sends the request for its batch.
  abbrev pub Handles : Type 0
  Handles =
      (batch : List A) (s : Session fl)
      → s.it.subscription_name ≡ name
      → SendsOnly fl (request name batch) s (Same fl) (handle batch)

  record Sending (all : List A) (s₀ : Session fl) (n : ℕ) (ids : List A) (s : Session fl)
      : Type 0 where
    named : s.it.subscription_name ≡ name
    short : All (IsShort id max_payload) ids
    grown : Grown (FromBatch name request id all) s₀.world s.world
    same : Same fl s₀ s
    inside : (a : A) → Occurs a ids → Occurs a all
    covers : (a : A) → Occurs a all → Occurs a ids ⊎ Covered name request a s.world

  abbrev Failed : List A → Session fl → Exception → Session fl → Type 0
  Failed all s₀ e s = Grown (FromBatch name request id all) s₀.world s.world × Same fl s₀ s

  module _ (all : List A) (s₀ : Session fl) (x : A) (xs : List A) where
    abbrev rest : List A
    rest = (split_request_ids id (x ∷ xs) max_payload).0

    abbrev to_send : List A
    to_send = (split_request_ids id (x ∷ xs) max_payload).1

    whole : to_send ++ rest ≡ x ∷ xs
    whole = split-append id (x ∷ xs) max_payload

    Sending-Grown :
        {n : ℕ} {s : Session fl} (s' : Session fl)
        → Sending all s₀ n (x ∷ xs) s
        → Grown (λ r. request name to_send ≡ r) s.world s'.world
        → Grown (FromBatch name request id all) s₀.world s'.world
    Sending-Grown s' h g = Grown-trans h.grown (
        Grown-mono
          (λ r e. (
            to_send,
            e,
            λ a o. h.inside a (subst (Occurs a) whole (Occurs-append_left a to_send rest o)),
            (split_fits id (x ∷ xs) max_payload h.short).0,
          ))
          g)

    Sending-step :
        (n : ℕ) {s : Session fl} (s' : Session fl)
        → Sending all s₀ (suc n) (x ∷ xs) s
        → Grown (λ r. request name to_send ≡ r) s.world s'.world
        → Requested (request name to_send) s'.world.log
        → Same fl s s'
        → Sending all s₀ n rest s'
    Sending-step n {s} s' h g sent same = record {
      named = same.same_name ∙ h.named;
      short = All-append_right (IsShort id max_payload) to_send rest (rw whole h.short);
      grown = Sending-Grown s' h g;
      same = Same-trans fl h.same same;
      inside = λ a o. h.inside a (subst (Occurs a) whole (Occurs-append_right a to_send rest o));
      covers = λ a o. now a (h.covers a o);
    }
      where
        split :
            (a : A)
            → Occurs a to_send ⊎ Occurs a rest
            → Occurs a rest ⊎ Covered name request a s'.world
        split a (inl k) = inr (to_send, sent, k)
        split a (inr k) = inl k

        now :
            (a : A)
            → Occurs a (x ∷ xs) ⊎ Covered name request a s.world
            → Occurs a rest ⊎ Covered name request a s'.world
        now a (inl k) = split a (Occurs-append a to_send rest (subst (Occurs a) (sym whole) k))
        now a (inr (batch, r, k)) = inr (batch, g.keeps _ r, k)

  Sending-Rule :
      (all : List A) (s₀ : Session fl)
      → Handles
      → Rule fl id handle (Sending all s₀) (Failed all s₀) (Unit {0})
  Sending-Rule all s₀ handles = record {
    out = λ x xs s h. tt;
    step = λ n x xs s h.
        let q : Request = request name (to_send all s₀ x xs) in
        Holds-mono (λ u s'. (SentBy fl q s s' × Requested q s'.world.log) × Same fl s s')
          (λ u s'. Sending all s₀ n (rest all s₀ x xs) s') (λ e s'. SentBy fl q s s' × Same fl s s')
          (Failed all s₀) Unit (handle (to_send all s₀ x xs) s)
          (handles (to_send all s₀ x xs) s h.named)
          (λ u s' k. Sending-step all s₀ x xs n s' h k.0.0 k.0.1 k.1)
          (λ e s' k. (Sending-Grown all s₀ x xs s' h k.0, Same-trans fl h.same k.1));
  }

  -- If the loop ends by its test, each id was in a request, and every request holds only ids of the
  -- set and is smaller than the maximum. If it ends by an exception the second half still holds.
  pub drain-Covered :
      (rounds : ℕ) (ids : List A) (s : Session fl)
      → Handles
      → s.it.subscription_name ≡ name
      → All (IsShort id max_payload) ids
      → After
          (λ u s'.
            (Grown (FromBatch name request id ids) s.world s'.world × Same fl s s')
            × ((a : A) → Occurs a ids → Covered name request a s'.world))
          (Failed ids s)
          (drain fl id handle rounds ids s)
  drain-Covered rounds ids s handles named short =
      Holds-mono (λ u s'. (n : ℕ) × Sending ids s n [] s') _ (Failed ids s) (Failed ids s) Unit
        (drain fl id handle rounds ids s)
        (drain-Holds fl id handle (Sending ids s) (Failed ids s) Unit (Sending-Rule ids s handles)
          rounds ids s
          (record {
            named = named;
            short = short;
            grown = Grown-refl s.world;
            same = Same-of-eq fl s s refl;
            inside = λ a o. o;
            covers = λ a o. inl o;
          }))
        (λ u s' k. ((k.1.grown, k.1.same), λ a o. covered a s' (k.1.covers a o))) (λ e s' k. k)
    where
      covered :
          (a : A) (s' : Session fl)
          → ⊥ ⊎ Covered name request a s'.world
          → Covered name request a s'.world
      covered a s' (inl k) = absurd k
      covered a s' (inr k) = k
