-- ===== src/ModAckIterator/Decisions.antt =====
-- The pending ids of pubsuber/src/ModAckIterator.cpp as a map from ids to what is to be sent: `Done`
-- writes an entry, and `ProcessModAcks` takes all of them.
use pubsuber.Base.{
  ℕ, ◌≡◌, refl, subst, ◌∙◌, ap, List, [], ◌∷◌, Bytes, Bytes_discrete, true, if◌then◌else◌, Option,
  none, some, ite, arith,
}
use pubsuber.Containers.{KeySet, contains}
use pubsuber.Containers.Sets.{contains-emplace, contains-erase}
use pubsuber.Double.{Float}
use pubsuber.Distribution.{Distribution}
use pubsuber.ModAckIterator.State.{
  DoneAction, ack, nack, ModAckIterator, add_deadline_watcher, set_done, done, merge_input,
}
use pubsuber.ModAckIterator.Requests.{take_pending}
use pubsuber.ModAckIterator.Pending.{
  Change, watched, settled, merged, taken, Changes, start, next, after_record, done_lem,
}

-- What is to be sent for an id.
abbrev pub Decisions : Type 0
Decisions = Bytes → Option DoneAction

-- Both sets as one map.
abbrev pub decided : KeySet → KeySet → Decisions
decided acks nacks k =
    if contains k acks then some ack else (if contains k nacks then some nack else none)

-- What a step means to the map.
pub data Label : Type 0 where
  decides : Bytes → DoneAction → Label
  takes_all : Label
  quiet : Label

-- The map after the steps, the last one first.
abbrev pub replay : List Label → Decisions → Decisions
replay [] m k = m k
replay (decides j action ∷ ls) m k = ite (Bytes_discrete j k) (some action) (replay ls m k)
replay (takes_all ∷ ls) m k = none
replay (quiet ∷ ls) m k = replay ls m k

module _ (fl : Float) where
  abbrev pub label : {it it' : ModAckIterator fl} → Change fl it it' → Label
  label (watched ack_id next_ack it) = quiet
  label (settled ack_id rt now action it it' e) = decides ack_id action
  label (merged it) = quiet
  label (taken it) = takes_all

  abbrev pub labels : {it it' : ModAckIterator fl} → Changes fl it it' → List Label
  labels (start it) = []
  labels (next it it' it'' changes change) = label change ∷ labels changes

  abbrev pub pending : ModAckIterator fl → Decisions
  pending it = decided it.pending_ack_ids it.pending_nack_ids

  set_done-pending :
      (key : Bytes) (action : DoneAction) (it : ModAckIterator fl) (k : Bytes)
      → pending (set_done fl key action it) k
        ≡ ite (Bytes_discrete key k) (some action) (pending it k)
  unfolding set_done
  set_done-pending key ack it k =
      ground
        (arith, contains-emplace key k it.pending_ack_ids, contains-erase key k it.pending_nack_ids)
  set_done-pending key nack it k =
      ground
        (arith, contains-erase key k it.pending_ack_ids, contains-emplace key k it.pending_nack_ids)

  -- What a call of `Done` leaves, the executor being alive.
  settled_lem :
      (ack_id : Bytes) (rt now : ℕ) (action : DoneAction) (it it' : ModAckIterator fl)
      → it.has_executor ≡ true
      → done fl ack_id rt now action it ≡ some it'
      → (dist : Distribution) × (set_done fl ack_id action (record it { ack_dist = dist }) ≡ it')
  settled_lem ack_id rt now action it it' alive e =
      let (dist, same) = done_lem fl ack_id rt now action it it' e in
      let chosen : set_done fl ack_id action (record it { ack_dist = dist })
          ≡ after_record fl ack_id action it dist =
        rw alive refl in
      (dist, chosen ∙ same)

  set_done-has_executor :
      (key : Bytes) (action : DoneAction) (it : ModAckIterator fl)
      → (set_done fl key action it).has_executor ≡ it.has_executor
  unfolding set_done
  set_done-has_executor key ack it = refl
  set_done-has_executor key nack it = refl

  -- A step as the map sees it.
  abbrev Follows : Decisions → Decisions → Label → Type 0
  Follows m m' l = (k : Bytes) → m' k ≡ replay (l ∷ []) m k

  pub Change-Follows :
      (it it' : ModAckIterator fl) (change : Change fl it it')
      → it.has_executor ≡ true
      → (it'.has_executor ≡ true) × Follows (pending it) (pending it') (label change)
  unfolding merge_input take_pending add_deadline_watcher contains
  Change-Follows it _ (watched ack_id next_ack _) alive = rw alive (refl, λ k. refl)
  Change-Follows it it' (settled ack_id rt now action _ _ e) alive =
      let (dist, same) = settled_lem ack_id rt now action it it' alive e in
      subst
        (λ i. (i.has_executor ≡ true) × Follows (pending it) (pending i) (decides ack_id action))
        same
        (
          set_done-has_executor ack_id action (record it { ack_dist = dist }) ∙ alive,
          set_done-pending ack_id action (record it { ack_dist = dist }),
        )
  Change-Follows it _ (merged _) alive = (alive, λ k. refl)
  Change-Follows it _ (taken _) alive = rw alive (refl, λ k. refl)

  pub Changes-has_executor :
      (it it' : ModAckIterator fl)
      → Changes fl it it'
      → it.has_executor ≡ true
      → it'.has_executor ≡ true
  Changes-has_executor it _ (start _) alive = alive
  Changes-has_executor it it'' (next _ it' _ changes change) alive =
      (Change-Follows it' it'' change (Changes-has_executor it it' changes alive)).0

  replay-cons :
      (l : Label) (ls : List Label) (m : Decisions) (k : Bytes)
      → replay (l ∷ []) (replay ls m) k ≡ replay (l ∷ ls) m k
  replay-cons (decides j action) ls m k = refl
  replay-cons takes_all ls m k = refl
  replay-cons quiet ls m k = refl

  replay_cong :
      (l : Label) (m m' : Decisions) (k : Bytes)
      → m k ≡ m' k
      → replay (l ∷ []) m k ≡ replay (l ∷ []) m' k
  replay_cong (decides j action) m m' k e = ap (ite (Bytes_discrete j k) (some action)) e
  replay_cong takes_all m m' k e = refl
  replay_cong quiet m m' k e = e

  pending-replay :
      (it it' : ModAckIterator fl) (changes : Changes fl it it') (k : Bytes)
      → it.has_executor ≡ true
      → pending it' k ≡ replay (labels changes) (pending it) k
  pending-replay it _ (start _) k alive = refl
  pending-replay it it'' (next _ it' _ changes change) k alive =
      (Change-Follows it' it'' change (Changes-has_executor it it' changes alive)).1 k
      ∙ replay_cong (label change) (pending it') (replay (labels changes) (pending it)) k
          (pending-replay it it' changes k alive)
      ∙ replay-cons (label change) (labels changes) (pending it) k

  take_pending_alive :
      (it : ModAckIterator fl)
      → it.has_executor ≡ true
      → (take_pending fl it).0 ≡ (it.pending_ack_ids, it.pending_nack_ids)
  unfolding take_pending
  take_pending_alive it alive = rw alive refl

  -- The iterator's executor is alive. However the threads' calls under the lock are ordered, the two
  -- sets of pending ids hold together exactly the map in which a call of `Done` writes its action under
  -- its id, the merge of the input and a new watch change nothing, and each take empties all of it; and
  -- what `ProcessModAcks` then takes to send is this map.
  pub Changes-replay :
      (it it' : ModAckIterator fl) (changes : Changes fl it it') (k : Bytes)
      → it.has_executor ≡ true
      → (pending it' k ≡ replay (labels changes) (pending it) k)
        × (let (acks, nacks) = (take_pending fl it').0 in
            decided acks nacks k ≡ replay (labels changes) (pending it) k)
  Changes-replay it it' changes k alive =
      let same = pending-replay it it' changes k alive in
      let all = take_pending_alive it' (Changes-has_executor it it' changes alive) in
      (same, ap (λ sets. decided sets.0 sets.1 k) all ∙ same)
