-- ===== src/ModAckIterator/Stuck.antt =====
-- The loop of `SendAcks`, `SendNacks` and `ModifyAckDeadlines` in pubsuber/src/ModAckIterator.cpp where
-- the first id is too long for a request of its own.
use pubsuber.Base.{ℕ, ◌+◌, ◌≤◌, ◌≡◌, refl, sym, ap, ◌∙◌, subst, List, [], ◌∷◌, Bytes, length}
use pubsuber.Double.{Float}
use pubsuber.Io.{Request, Act, Holds, After}
use pubsuber.Io.Rules.{Holds-mono}
use pubsuber.Retriable.Spends.{Grown, Grown-refl, Grown-trans}
use pubsuber.Algorithms.{req_fixed_overhead, overhead_per_id, split_request_ids}
use pubsuber.Algorithms.Split.{IsShort, split_stuck}
use pubsuber.ModAckIterator.Requests.{Session, max_payload, drain}
use pubsuber.ModAckIterator.Drain.{Rule, drain-Holds, Handles}

-- The id does not fit in a request of its own, though it does not make the 32-bit size wrap around.
abbrev pub IsTooLong : {A : Type 0} → (A → Bytes) → A → Type 0
IsTooLong id x =
    (max_payload ≤ req_fixed_overhead + overhead_per_id + length (id x)) × IsShort id max_payload x

module _ (fl : Float) {A : Type 0} (id : A → Bytes) (handle : List A → Act (Session fl) (Unit {0}))
    (name : Bytes) (request : Bytes → List A → Request) (x : A) (ids : List A)
    (s₀ : Session fl) where
  -- Only requests without ids were sent since the loop began.
  abbrev Idle : Session fl → Type 0
  Idle s = Grown (λ r. request name [] ≡ r) s₀.world s.world

  record Turning (n : ℕ) (left : List A) (s : Session fl) : Type 0 where
    named : s.it.subscription_name ≡ name
    all_left : left ≡ x ∷ ids
    idle : Idle s

  Turning-Rule :
      Handles fl id handle name request
      → IsTooLong id x
      → Rule fl id handle Turning (λ e s. Idle s) (Unit {0})
  Turning-Rule handles (long, short) = record {
    out = λ y ys s h. tt;
    step = λ n y ys s h.
        let stuck : split_request_ids id (y ∷ ys) max_payload ≡ (x ∷ ids, []) =
          ap (λ l. split_request_ids id l max_payload) h.all_left
          ∙ split_stuck id x ids max_payload long short in
        subst (λ p. Holds (λ u s'. Turning n p.0 s') (λ e s'. Idle s') (Unit {0}) (handle p.1 s))
          (sym stuck)
          (Holds-mono _ (λ u s'. Turning n (x ∷ ids) s') _ (λ e s'. Idle s') (Unit {0})
            (handle [] s) (handles [] s h.named)
            (λ u s' k. record {
              named = k.1.same_name ∙ h.named;
              all_left = refl;
              idle = Grown-trans h.idle k.0.0;
            })
            (λ e s' k. Grown-trans h.idle k.0));
  }

  pub drain_turns :
      (rounds : ℕ)
      → Handles fl id handle name request
      → IsTooLong id x
      → s₀.it.subscription_name ≡ name
      → After (λ u s. ⊥) (λ e s. Idle s) (drain fl id handle rounds (x ∷ ids) s₀)
  drain_turns rounds handles long named =
      Holds-mono (λ u s. (n : ℕ) × Turning n [] s) (λ u s. ⊥) (λ e s. Idle s) (λ e s. Idle s)
        (Unit {0}) (drain fl id handle rounds (x ∷ ids) s₀)
        (drain-Holds fl id handle Turning (λ e s. Idle s) (Unit {0}) (Turning-Rule handles long)
          rounds (x ∷ ids) s₀
          (record { named = named; all_left = refl; idle = Grown-refl s₀.world }))
        (λ u s h. absurd (nonempty h.1.all_left)) (λ e s h. h)
    where
      nonempty : ¬ ([] ≡ x ∷ ids)
      nonempty e = cc

module _ (fl : Float) where
  -- Until a call of the service throws, the loop goes on, and it sends only requests of its kind that
  -- hold no id.
  abbrev pub IsStuck :
      {A : Type 0}
      → (A → Bytes)
      → (List A → Act (Session fl) (Unit {0}))
      → (Bytes → List A → Request)
      → List A
      → Session fl
      → Type 0
  IsStuck id handle request ids s =
      (rounds : ℕ)
      → After (λ u t. ⊥) (λ e t. Grown (λ r. request s.it.subscription_name [] ≡ r) s.world t.world)
          (drain fl id handle rounds ids s)
