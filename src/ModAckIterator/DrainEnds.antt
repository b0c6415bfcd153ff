-- ===== src/ModAckIterator/DrainEnds.antt =====
-- The loop of `SendAcks`, `SendNacks` and `ModifyAckDeadlines` in pubsuber/src/ModAckIterator.cpp
-- ends: each round takes an id, and each call gets its answers.
use native.Mathlib.Nat.{mul-le-mul_left}
use pubsuber.Base.{
  ℕ, suc, ◌+◌, ◌*◌, ◌≤◌, ◌<◌, ◌≡◌, subst, ◌∙◌, List, [], ◌∷◌, Bytes, length, All, arith,
}
use pubsuber.Double.{Float}
use pubsuber.Io.{Act, Ends}
use pubsuber.Io.Rules.{Holds-mono}
use pubsuber.Retriable.{Policies}
use pubsuber.Retriable.Attempts.{IsLimited}
use pubsuber.Algorithms.{split_request_ids}
use pubsuber.Algorithms.Split.{Fits, split_progress, split-All-Fits}
use pubsuber.ModAckIterator.Requests.{Session, max_payload, drain}
use pubsuber.ModAckIterator.Calls.{EndsSoon, tries, replies_left}
use pubsuber.ModAckIterator.Drain.{Rule, drain-Holds}

module _ (fl : Float) {A : Type 0} (id : A → Bytes) (handle : List A → Act (Session fl) (Unit {0}))
    (p : Policies fl) (limited : IsLimited p.count_policy) where
  -- The body of the loop ends, once the server gives enough answers.
  abbrev pub HandlesEnd : Type 0
  HandlesEnd =
      (batch : List A) (s : Session fl)
      → s.it.policies ≡ p
      → tries fl p ≤ replies_left fl s
      → EndsSoon fl s (handle batch)

  record Ending (all : List A) (s₀ : Session fl) (n : ℕ) (ids : List A) (s : Session fl)
      : Type 0 where
    rounds : length ids < n
    fits : All (Fits id max_payload) ids
    same_policies : s.it.policies ≡ p
    room : tries fl p * length ids ≤ replies_left fl s
    used :
        replies_left fl s₀ + tries fl p * length ids ≤ replies_left fl s + tries fl p * length all

  Ending-Rule :
      (all : List A) (s₀ : Session fl)
      → HandlesEnd
      → Rule fl id handle (Ending all s₀) (λ e s. Unit {0}) ⊥
  Ending-Rule all s₀ handles = record {
    out = λ x xs s h. absurd (omega (arith, h.rounds));
    step = λ n x xs s h.
        let rest : List A = (split_request_ids id (x ∷ xs) max_payload).0 in
        let to_send : List A = (split_request_ids id (x ∷ xs) max_payload).1 in
        let shorter : length rest ≤ length xs = split_progress id x xs max_payload h.fits.0 in
        let less : tries fl p * length rest ≤ tries fl p * length xs =
          mul-le-mul_left (tries fl p) shorter in
        Holds-mono
          (λ u s'.
            (replies_left fl s ≤ replies_left fl s' + tries fl s.it.policies)
            × (s'.it.policies ≡ s.it.policies))
          (λ u s'. Ending all s₀ n rest s') (λ e s'. Unit {0}) (λ e s'. Unit {0}) ⊥
          (handle to_send s) (handles to_send s h.same_policies (omega (arith, h.room)))
          (λ u s' k.
            let spent : replies_left fl s ≤ replies_left fl s' + tries fl p =
              subst (λ p'. replies_left fl s ≤ replies_left fl s' + tries fl p') h.same_policies
                k.0 in
            record {
              rounds = omega (arith, h.rounds);
              fits = split-All-Fits id (x ∷ xs) max_payload h.fits;
              same_policies = k.1 ∙ h.same_policies;
              room = omega (arith, h.room);
              used = omega (arith, h.used);
            })
          (λ e s' k. tt);
  }

  -- If every id fits in a request, the loop ends within one round more than there are ids, and uses
  -- up no more answers than the tries of one call for each id.
  pub drain-Ends :
      (ids : List A) (s : Session fl)
      → HandlesEnd
      → s.it.policies ≡ p
      → All (Fits id max_payload) ids
      → tries fl p * length ids ≤ replies_left fl s
      → Ends
          (λ u s'.
            (replies_left fl s ≤ replies_left fl s' + tries fl p * length ids)
            × (s'.it.policies ≡ p))
          (λ e s'. Unit {0})
          (drain fl id handle (suc (length ids)) ids s)
  drain-Ends ids s handles same fits room =
      Holds-mono (λ u s'. (n : ℕ) × Ending ids s n [] s') _ (λ e s'. Unit {0}) (λ e s'. Unit {0}) ⊥
        (drain fl id handle (suc (length ids)) ids s)
        (drain-Holds fl id handle (Ending ids s) (λ e s'. Unit {0}) ⊥ (Ending-Rule ids s handles)
          (suc (length ids)) ids s
          (record {
            rounds = omega arith;
            fits = fits;
            same_policies = same;
            room = room;
            used = omega arith;
          }))
        (λ u s' k. (omega (arith, k.1.used), k.1.same_policies)) (λ e s' k. tt)
