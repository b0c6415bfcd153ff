-- ===== src/ModAckIterator/Total.antt =====
-- `ProcessModAcks` of pubsuber/src/ModAckIterator.cpp ends.
use native.Mathlib.Nat.{mul-le-mul_left}
use pubsuber.Base.{
  ℕ, ◌+◌, ◌*◌, ◌≤◌, ◌<◌, ◌^◌, ◌≡◌, refl, ap, ◌∙◌, [], ◌∷◌, Bytes, true, none, All, length, arith,
}
use pubsuber.Containers.{Map, KeySet, lookup}
use pubsuber.Containers.Maps.{key_of_lookup, All-keys}
use pubsuber.Double.{Float, IsIeee}
use pubsuber.Distribution.Records.{total}
use pubsuber.Io.{acknowledge, Holds, Ends}
use pubsuber.Io.Rules.{Holds-mono, Holds-and}
use pubsuber.Retriable.{Policies}
use pubsuber.Retriable.Attempts.{IsLimited}
use pubsuber.Algorithms.Keys.{lookup-erase_keys, length-erase_keys-le}
use pubsuber.Algorithms.Split.{IsShort, Fits}
use pubsuber.ModAckIterator.State.{ack_deadline}
use pubsuber.ModAckIterator.Requests.{
  Session, set_id, max_payload, send_acks, send_nacks, modify_ack_deadlines, take_pending,
  or_terminate, process_mod_acks,
}
use pubsuber.ModAckIterator.Calls.{Same, tries, replies_left}
use pubsuber.ModAckIterator.Deadlines.{ack_deadline_bounds}
use pubsuber.ModAckIterator.Sends.{
  SentFrom, AllCovered, nack_request, send_acks-Covered, send_nacks-Covered, send_acks-Ends,
  send_nacks-Ends,
}
use pubsuber.ModAckIterator.Extension.{FitIds, modify_ack_deadlines-Ends}
use pubsuber.ModAckIterator.Process.{unwatched, taken, process-Holds, Processed, taken_lem}
use pubsuber.ModAckIterator.Outcome.{AllSent, process_mod_acks-Processed}

All-Fits-IsShort :
    (ids : KeySet) → All (Fits set_id max_payload) ids → All (IsShort set_id max_payload) ids
All-Fits-IsShort [] h = tt
All-Fits-IsShort (k ∷ ids) h = (h.0.1, All-Fits-IsShort ids h.1)

FitIds-ShortIds {ℓ} :
    {V : Type ℓ} (P Q : Bytes → Type 0) (m : Map V)
    → ((k : Bytes) → P k → Q k)
    → All (λ p. P p.0) m
    → All (λ p. Q p.0) m
FitIds-ShortIds P Q [] f h = tt
FitIds-ShortIds P Q ((k, v) ∷ m) f h = (f k h.0, FitIds-ShortIds P Q m f h.1)

module _ (fl : Float) (s : Session fl) (alive : s.it.has_executor ≡ true) where
  abbrev policies : Policies fl
  policies = s.it.policies

  abbrev watched : ℕ
  watched = length s.it.keep_alive_ack_ids

  -- At `t` at most the tries of `n` calls are used up, and nothing new is watched.
  record Ready (n : ℕ) (t : Session fl) : Type 0 where
    room : replies_left fl s ≤ replies_left fl t + tries fl policies * n
    same_policies : t.it.policies ≡ policies
    same_dist : t.it.ack_dist ≡ s.it.ack_dist
    none_new :
        (j : Bytes)
        → lookup j s.it.keep_alive_ack_ids ≡ none
        → lookup j t.it.keep_alive_ack_ids ≡ none
    count : length t.it.keep_alive_ack_ids ≤ watched

  Ready-later :
      (n m : ℕ) {t u : Session fl}
      → Ready n t
      → Same fl t u
      → replies_left fl t ≤ replies_left fl u + tries fl policies * m
      → u.it.policies ≡ policies
      → Ready (n + m) u
  Ready-later n m h same room e = record {
    room = omega (arith, h.room);
    same_policies = e;
    same_dist = same.same_dist ∙ h.same_dist;
    none_new = λ j k. same.none_new j (h.none_new j k);
    count = omega (arith, h.count, same.same_count);
  }

  Ready-unwatched :
      (n : ℕ) (ids : KeySet) {t : Session fl} → Ready n t → Ready n (unwatched fl ids t)
  Ready-unwatched n ids {t} h = record {
    room = h.room;
    same_policies = h.same_policies;
    same_dist = h.same_dist;
    none_new =
        λ j e. ground (arith, h.none_new j e, lookup-erase_keys j t.it.keep_alive_ack_ids ids);
    count = omega (arith, h.count, length-erase_keys-le t.it.keep_alive_ack_ids ids);
  }

  taken-Ready : Ready 0 (taken fl s)
  unfolding take_pending
  taken-Ready = rw alive (record {
    room = omega arith;
    same_policies = refl;
    same_dist = refl;
    none_new = λ j e. e;
    count = omega arith;
  })

  module _ (p_limited : IsLimited policies.count_policy) where
    send_acks-Ready :
        (ids : KeySet) (t : Session fl)
        → Ready 0 t
        → All (Fits set_id max_payload) ids
        → tries fl policies * length ids ≤ replies_left fl s
        → Ends (λ u t'. Ready (0 + length ids) t') (λ e t'. Unit {0}) (send_acks fl ids t)
    send_acks-Ready ids t h fits room =
        Holds-mono
          (λ u t'.
            ((replies_left fl t ≤ replies_left fl t' + tries fl policies * length ids)
              × (t'.it.policies ≡ policies))
            × (SentFrom fl set_id acknowledge ids t t' × AllCovered fl acknowledge ids t t'))
          (λ u t'. Ready (0 + length ids) t')
          (λ e t'. Unit {0} × SentFrom fl set_id acknowledge ids t t') (λ e t'. Unit {0}) ⊥
          (send_acks fl ids t)
          (Holds-and _ _ _ _ ⊥ Unit (send_acks fl ids t)
            (send_acks-Ends fl policies p_limited ids t h.same_policies fits
              (omega (arith, h.room)))
            (send_acks-Covered fl ids t (All-Fits-IsShort ids fits)))
          (λ u t' k. Ready-later 0 (length ids) h k.1.0.1 k.0.0 k.0.1) (λ e t' k. tt)

    send_nacks-Ready :
        (n : ℕ) (ids : KeySet) (t : Session fl)
        → Ready n t
        → All (Fits set_id max_payload) ids
        → tries fl policies * (n + length ids) ≤ replies_left fl s
        → Ends (λ u t'. Ready (n + length ids) t') (λ e t'. Unit {0}) (send_nacks fl ids t)
    send_nacks-Ready n ids t h fits room =
        Holds-mono
          (λ u t'.
            ((replies_left fl t ≤ replies_left fl t' + tries fl policies * length ids)
              × (t'.it.policies ≡ policies))
            × (SentFrom fl set_id nack_request ids t t' × AllCovered fl nack_request ids t t'))
          (λ u t'. Ready (n + length ids) t')
          (λ e t'. Unit {0} × SentFrom fl set_id nack_request ids t t') (λ e t'. Unit {0}) ⊥
          (send_nacks fl ids t)
          (Holds-and _ _ _ _ ⊥ Unit (send_nacks fl ids t)
            (send_nacks-Ends fl policies p_limited ids t h.same_policies fits
              (omega (arith, h.room)))
            (send_nacks-Covered fl ids t (All-Fits-IsShort ids fits)))
          (λ u t' k. Ready-later n (length ids) h k.1.0.1 k.0.0 k.0.1) (λ e t' k. tt)

    extend-Ready :
        (n : ℕ) (t : Session fl)
        → IsIeee fl
        → 0 < length s.it.ack_dist.hist
        → total s.it.ack_dist.hist ≤ 2 ^ 53
        → FitIds s.it.keep_alive_ack_ids
        → tries fl policies * (n + watched) ≤ replies_left fl s
        → Ready n t
        → Ends
            (λ ms t'. replies_left fl s ≤ replies_left fl t' + tries fl policies * (n + watched))
            (λ e t'. Unit {0})
            (or_terminate fl
              (ack_deadline fl t.it)
              (λ dl. modify_ack_deadlines fl dl t.it.grace_period)
              t)
    extend-Ready n t ieee filled few fits room h =
        let hist : t.it.ack_dist.hist ≡ s.it.ack_dist.hist = ap (λ d. d.hist) h.same_dist in
        let (dl, found, low, high) =
          ack_deadline_bounds fl t.it ieee (rw hist filled) (rw hist few) in
        let less : tries fl policies * length t.it.keep_alive_ack_ids
            ≤ tries fl policies * watched =
          mul-le-mul_left (tries fl policies) h.count in
        rw (found, Holds)
          (Holds-mono
            (λ ms t'.
              replies_left fl t
              ≤ replies_left fl t' + tries fl policies * length t.it.keep_alive_ack_ids)
            (λ ms t'. replies_left fl s ≤ replies_left fl t' + tries fl policies * (n + watched))
            (λ e t'. Unit {0}) (λ e t'. Unit {0}) ⊥ (modify_ack_deadlines fl dl t.it.grace_period t)
            (modify_ack_deadlines-Ends fl policies p_limited dl t.it.grace_period t h.same_policies
              (All-keys (Fits set_id max_payload) t.it.keep_alive_ack_ids (λ j k.
                key_of_lookup (Fits set_id max_payload) j s.it.keep_alive_ack_ids fits
                  (λ e. k (h.none_new j e))))
              (omega (arith, h.room)))
            (λ ms t' used. omega (arith, h.room, used)) (λ e t' u. tt))

    -- `ProcessModAcks` uses up no more answers than the tries of one call for each id.
    pub process_mod_acks-Spends :
        IsIeee fl
        → 0 < length s.it.ack_dist.hist
        → total s.it.ack_dist.hist ≤ 2 ^ 53
        → All (Fits set_id max_payload) s.it.pending_ack_ids
        → All (Fits set_id max_payload) s.it.pending_nack_ids
        → FitIds s.it.keep_alive_ack_ids
        → tries fl policies * (length s.it.pending_ack_ids + length s.it.pending_nack_ids + watched)
          ≤ replies_left fl s
        → Ends
            (λ ms t.
              AllSent fl s alive t
              × (replies_left fl s
                  ≤ replies_left fl t
                    + tries fl policies
                      * (length s.it.pending_ack_ids + length s.it.pending_nack_ids + watched)))
            (λ e t. Processed fl s t)
            (process_mod_acks fl s)
    process_mod_acks-Spends ieee filled few fit_acks fit_nacks fits room =
        let n : ℕ = length s.it.pending_ack_ids in
        let m : ℕ = length s.it.pending_nack_ids in
        let (is_acks, is_nacks) = taken_lem fl s alive in
        let Used : Session fl → Type 0 =
          λ t. replies_left fl s ≤ replies_left fl t + tries fl policies * (0 + n + m + watched) in
        let ends : Ends (λ ms t. Used t) (λ e t. Unit {0}) (process_mod_acks fl s) =
          process-Holds fl (Ready (0 + n)) (Ready (0 + n + m)) (λ ms t. Used t) (λ e t. Unit {0}) ⊥
            s
            (rw is_acks (
              send_acks-Ready s.it.pending_ack_ids _
                (Ready-unwatched 0 s.it.pending_ack_ids taken-Ready) fit_acks (omega arith)))
            (λ t h. rw is_nacks (
              send_nacks-Ready (0 + n) s.it.pending_nack_ids _
                (Ready-unwatched (0 + n) s.it.pending_nack_ids h) fit_nacks (omega arith)))
            (λ t h. extend-Ready (0 + n + m) t ieee filled few fits (omega arith) h) in
        Holds-mono (λ ms t. Used t × AllSent fl s alive t) _ (λ e t. Unit {0} × Processed fl s t)
          (λ e t. Processed fl s t) ⊥ (process_mod_acks fl s)
          (Holds-and _ _ _ _ ⊥ Unit (process_mod_acks fl s) ends (
            process_mod_acks-Processed fl s alive (All-Fits-IsShort s.it.pending_ack_ids fit_acks)
              (All-Fits-IsShort s.it.pending_nack_ids fit_nacks)
              (FitIds-ShortIds (Fits set_id max_payload) (IsShort set_id max_payload)
                s.it.keep_alive_ack_ids (λ k h. h.1) fits)))
          (λ ms t h. (h.1, omega (arith, h.0))) (λ e t h. h.1)

    -- Let the executor live, every id fit in a request, the retries be limited, the floating-point
    -- numbers meet their laws, and the histogram have a cell and count at most 2^53 times. Once the
    -- server gives as many answers as the tries of one call for each pending and each watched id,
    -- `ProcessModAcks` returns, with all pending ids sent, or throws an exception.
    pub process_mod_acks-Ends :
        IsIeee fl
        → 0 < length s.it.ack_dist.hist
        → total s.it.ack_dist.hist ≤ 2 ^ 53
        → All (Fits set_id max_payload) s.it.pending_ack_ids
        → All (Fits set_id max_payload) s.it.pending_nack_ids
        → FitIds s.it.keep_alive_ack_ids
        → tries fl policies * (length s.it.pending_ack_ids + length s.it.pending_nack_ids + watched)
          ≤ replies_left fl s
        → Ends (λ ms t. AllSent fl s alive t) (λ e t. Processed fl s t) (process_mod_acks fl s)
    process_mod_acks-Ends ieee filled few fit_acks fit_nacks fits room =
        Holds-mono _ (λ ms t. AllSent fl s alive t) (λ e t. Processed fl s t)
          (λ e t. Processed fl s t) ⊥ (process_mod_acks fl s)
          (process_mod_acks-Spends ieee filled few fit_acks fit_nacks fits room) (λ ms t h. h.0)
          (λ e t h. h)
