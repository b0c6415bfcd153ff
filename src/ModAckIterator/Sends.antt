-- ===== src/ModAckIterator/Sends.antt =====
-- `SendAcks`, `SendNacks` and the extension of deadlines in pubsuber/src/ModAckIterator.cpp: which
-- requests they send, and that they end.
use pubsuber.Base.{
  ℕ, suc, ◌+◌, ◌*◌, ◌≤◌, ◌≡◌, refl, ap, ◌∙◌, List, [], ◌∷◌, map, Bytes, length, All, Occurs, ◌↔◌,
  none, arith,
}
use pubsuber.Containers.{Map, KeySet, lookup, write_through}
use pubsuber.Containers.Maps.{lookup-write_through, length-write_through}
use pubsuber.Double.{Float}
use pubsuber.Io.{Request, modify_ack_deadline, acknowledge, After, Ends, Act}
use pubsuber.Retriable.{Policies}
use pubsuber.Retriable.Attempts.{IsLimited}
use pubsuber.Retriable.Spends.{Grown}
use pubsuber.Algorithms.{PackSet, pack_id, populate_from_set}
use pubsuber.Algorithms.Keys.{populate_from_set_lem, populate_from_packs_lem}
use pubsuber.Algorithms.Split.{IsShort, Fits}
use pubsuber.ModAckIterator.State.{AckWatchDescriptor}
use pubsuber.ModAckIterator.Requests.{
  Session, set_id, max_payload, drain, ack_batch, nack_batch, send_acks, send_nacks, extend_packs,
  update_next_acks,
}
use pubsuber.ModAckIterator.Calls.{
  Same, IsCalm, Same-of-eq, tries, replies_left, ack_messages-SendsOnly, ack_messages-EndsSoon,
  extend-SendsOnly, extend-EndsSoon,
}
use pubsuber.ModAckIterator.Drain.{FromBatch, Covered, Handles, drain-Covered}
use pubsuber.ModAckIterator.DrainEnds.{drain-Ends}

populated : (ids : KeySet) → (populate_from_set [] ids).0 ≡ ids
populated ids = ap (λ r. r.0) (populate_from_set_lem [] ids)

-- The requests of the three loops.
abbrev pub nack_request : Bytes → List Bytes → Request
nack_request name ids = modify_ack_deadline name ids 0

abbrev pub extension : ℕ → Bytes → PackSet → Request
extension dl name packs = modify_ack_deadline name (map pack_id packs) dl

module _ (fl : Float) where
  -- What a loop over `ids` did: it sent requests made by `request` for ids of the set, each below
  -- the maximum size, and left all of the iterator but `_keepAliveAckIDs` as it was.
  abbrev pub SentFrom :
      {A : Type 0}
      → (A → Bytes)
      → (Bytes → List A → Request)
      → List A
      → Session fl
      → Session fl
      → Type 0
  SentFrom id request ids s s' =
      Grown (FromBatch s.it.subscription_name request id ids) s.world s'.world × Same fl s s'

  -- Each of the ids was in a request that was sent.
  abbrev pub AllCovered :
      {A : Type 0} → (Bytes → List A → Request) → List A → Session fl → Session fl → Type 0
  AllCovered {A} request ids s s' =
      (a : A) → Occurs a ids → Covered s.it.subscription_name request a s'.world

  pub send_acks_handles : (name : Bytes) → Handles fl set_id (ack_batch fl) name acknowledge
  send_acks_handles name batch s e = rw (populated batch, ← e) (ack_messages-SendsOnly fl batch s)

  -- `SendAcks`, when it returns, has sent an acknowledgement of every id of the set, whatever the
  -- server answered; when it throws, it has sent acknowledgements of ids of the set only.
  pub send_acks-Covered :
      (ids : KeySet) (s : Session fl)
      → All (IsShort set_id max_payload) ids
      → After
          (λ u s'. SentFrom set_id acknowledge ids s s' × AllCovered acknowledge ids s s')
          (λ e s'. SentFrom set_id acknowledge ids s s')
          (send_acks fl ids s)
  unfolding send_acks
  send_acks-Covered ids s short =
      drain-Covered fl set_id _ s.it.subscription_name acknowledge (suc (length ids)) ids s
        (send_acks_handles s.it.subscription_name) refl short

  pub send_nacks_handles : (name : Bytes) → Handles fl set_id (nack_batch fl) name nack_request
  send_nacks_handles name batch s e =
      rw (populated batch, ← e)
        (extend-SendsOnly fl batch 0 (λ next it. it) s (λ n s'. Same-of-eq fl s' s' refl))

  -- `SendNacks` does the same with requests that set the deadline to 0 seconds.
  pub send_nacks-Covered :
      (ids : KeySet) (s : Session fl)
      → All (IsShort set_id max_payload) ids
      → After
          (λ u s'. SentFrom set_id nack_request ids s s' × AllCovered nack_request ids s s')
          (λ e s'. SentFrom set_id nack_request ids s s')
          (send_nacks fl ids s)
  unfolding send_nacks
  send_nacks-Covered ids s short =
      drain-Covered fl set_id _ s.it.subscription_name nack_request (suc (length ids)) ids s
        (send_nacks_handles s.it.subscription_name) refl short

  -- Times are written to ids that are watched.
  update_next_acks-none :
      (j : Bytes) (packs : PackSet) (next : ℕ) (ids : Map AckWatchDescriptor)
      → (lookup j (update_next_acks fl packs next ids) ≡ none) ↔ (lookup j ids ≡ none)
  unfolding update_next_acks
  update_next_acks-none j [] next ids = (λ e. e, λ e. e)
  update_next_acks-none j ((k, entry) ∷ packs) next ids =
      let ids' : Map AckWatchDescriptor = write_through entry (record { next_ack = next }) ids in
      let (onto, back) = update_next_acks-none j packs next ids' in
      (
        λ e. ground (arith, onto e, lookup-write_through entry j (record { next_ack = next }) ids),
        λ e. back (ground (arith, lookup-write_through entry j (record { next_ack = next }) ids)),
      )

  update_next_acks-length :
      (packs : PackSet) (next : ℕ) (ids : Map AckWatchDescriptor)
      → length (update_next_acks fl packs next ids) ≡ length ids
  unfolding update_next_acks
  update_next_acks-length [] next ids = refl
  update_next_acks-length ((k, entry) ∷ packs) next ids =
      update_next_acks-length packs next _
      ∙ length-write_through entry (record { next_ack = next }) ids

  updates-IsCalm :
      (packs : PackSet)
      → IsCalm fl (λ next it. record it {
        keep_alive_ack_ids = update_next_acks fl packs next it.keep_alive_ack_ids;
      })
  updates-IsCalm packs n s = record {
    same_name = refl;
    same_grace = refl;
    same_dist = refl;
    same_executor = refl;
    same_policies = refl;
    same_input = refl;
    same_acks = refl;
    same_nacks = refl;
    none_new = λ j e. (update_next_acks-none j packs n s.it.keep_alive_ack_ids).1 e;
    none_lost = λ j e. (update_next_acks-none j packs n s.it.keep_alive_ack_ids).0 e;
    same_count = update_next_acks-length packs n s.it.keep_alive_ack_ids;
  }

  pub extend_handles :
      (dl : ℕ) (name : Bytes) → Handles fl pack_id (extend_packs fl dl) name (extension dl)
  unfolding extend_packs
  extend_handles dl name batch s e =
      rw (ap (λ r. r.0) (populate_from_packs_lem [] batch), ← e)
        (extend-SendsOnly fl (map pack_id batch) dl _ s (updates-IsCalm batch))

  -- The loop of `ModifyAckDeadlines` does the same with requests for the new deadline.
  pub extend-Covered :
      (dl rounds : ℕ) (packs : PackSet) (s : Session fl)
      → All (IsShort pack_id max_payload) packs
      → After
          (λ u s'.
            SentFrom pack_id (extension dl) packs s s' × AllCovered (extension dl) packs s s')
          (λ e s'. SentFrom pack_id (extension dl) packs s s')
          (drain fl pack_id (extend_packs fl dl) rounds packs s)
  extend-Covered dl rounds packs s short =
      drain-Covered fl pack_id _ s.it.subscription_name (extension dl) rounds packs s
        (extend_handles dl s.it.subscription_name) refl short

  -- What the three loops need to end, and what they use up.
  module _ (p : Policies fl) (limited : IsLimited p.count_policy) where
    abbrev pub EndsWithin : Session fl → ℕ → Act (Session fl) (Unit {0}) → Type 0
    EndsWithin s n m =
        Ends
          (λ u s'. (replies_left fl s ≤ replies_left fl s' + tries fl p * n) × (s'.it.policies ≡ p))
          (λ e s'. Unit {0}) (m s)

    pub send_acks-Ends :
        (ids : KeySet) (s : Session fl)
        → s.it.policies ≡ p
        → All (Fits set_id max_payload) ids
        → tries fl p * length ids ≤ replies_left fl s
        → EndsWithin s (length ids) (send_acks fl ids)
    unfolding send_acks
    send_acks-Ends ids s same fits room =
        drain-Ends fl set_id (ack_batch fl) p limited ids s
          (λ batch s' e r.
            ack_messages-EndsSoon fl (populate_from_set [] batch).0 s' (rw e limited) (rw e r))
          same fits room

    pub send_nacks-Ends :
        (ids : KeySet) (s : Session fl)
        → s.it.policies ≡ p
        → All (Fits set_id max_payload) ids
        → tries fl p * length ids ≤ replies_left fl s
        → EndsWithin s (length ids) (send_nacks fl ids)
    unfolding send_nacks
    send_nacks-Ends ids s same fits room =
        drain-Ends fl set_id (nack_batch fl) p limited ids s
          (λ batch s' e r.
            extend-EndsSoon fl (populate_from_set [] batch).0 0 (λ next it. it) s'
              (λ n t. Same-of-eq fl t t refl) (rw e limited) (rw e r))
          same fits room

    pub extend-Ends :
        (dl : ℕ) (packs : PackSet) (s : Session fl)
        → s.it.policies ≡ p
        → All (Fits pack_id max_payload) packs
        → tries fl p * length packs ≤ replies_left fl s
        → EndsWithin s
            (length packs)
            (drain fl pack_id (extend_packs fl dl) (suc (length packs)) packs)
    unfolding extend_packs
    extend-Ends dl packs s same fits room =
        drain-Ends fl pack_id _ p limited packs s
          (λ batch s' e r.
            extend-EndsSoon fl _ dl _ s' (updates-IsCalm batch) (rw e limited) (rw e r))
          same fits room
