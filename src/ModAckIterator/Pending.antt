-- ===== src/ModAckIterator/Pending.antt =====
-- What the operations under the lock in pubsuber/src/ModAckIterator.h and ModAckIterator.cpp keep, in
-- whatever order the threads call them.
use pubsuber.Base.{
  ℕ, ◌≡◌, ◌∙◌, refl, subst, [], Bytes, Bool, true, false, ◌&&◌, if◌then◌else◌, Option, not, none,
  some, arith,
}
use pubsuber.Containers.{KeySet, insert_or_assign, contains}
use pubsuber.Containers.Sets.{contains-emplace, contains-erase}
use pubsuber.Containers.Distinct.{IsDistinct, insert-IsDistinct, merge-IsDistinct}
use pubsuber.Double.{Float}
use pubsuber.Distribution.{Distribution, record_value}
use pubsuber.ModAckIterator.State.{
  DoneAction, ack, nack, ModAckIterator, seconds_since, add_deadline_watcher, set_done, done,
  merge_input,
}
use pubsuber.ModAckIterator.Requests.{take_pending}

module _ (fl : Float) where
  -- A step of some thread on the iterator.
  pub data Change : ModAckIterator fl → ModAckIterator fl → Type 0 where
    watched :
        (ack_id : Bytes) (next_ack : ℕ) (it : ModAckIterator fl)
        → Change it (add_deadline_watcher fl ack_id next_ack it)
    settled :
        (ack_id : Bytes) (rt now : ℕ) (action : DoneAction) (it it' : ModAckIterator fl)
        → done fl ack_id rt now action it ≡ some it'
        → Change it it'
    merged : (it : ModAckIterator fl) → Change it (merge_input fl it)
    taken : (it : ModAckIterator fl) → Change it (take_pending fl it).1

  pub data Changes : ModAckIterator fl → ModAckIterator fl → Type 0 where
    start : (it : ModAckIterator fl) → Changes it it
    next : (it it' it'' : ModAckIterator fl) → Changes it it' → Change it' it'' → Changes it it''

  -- No id stands twice in a map, and none waits for an acknowledgement and for a deadline of 0 at once.
  pub record IsValid (it : ModAckIterator fl) : Type 0 where
    pub input : IsDistinct it.input_ack_ids
    pub keep_alive : IsDistinct it.keep_alive_ack_ids
    pub apart :
        (k : Bytes) → (contains k it.pending_ack_ids && contains k it.pending_nack_ids) ≡ false

  set_done-apart :
      (key k : Bytes) (action : DoneAction) (it : ModAckIterator fl)
      → (contains k it.pending_ack_ids && contains k it.pending_nack_ids) ≡ false
      → (contains k (set_done fl key action it).pending_ack_ids
          && contains k (set_done fl key action it).pending_nack_ids)
        ≡ false
  unfolding set_done
  set_done-apart key k ack it h =
      ground
        (arith, contains-emplace key k it.pending_ack_ids, contains-erase key k it.pending_nack_ids)
  set_done-apart key k nack it h =
      ground
        (arith, contains-erase key k it.pending_ack_ids, contains-emplace key k it.pending_nack_ids)

  set_done-IsValid :
      (key : Bytes) (action : DoneAction) (it : ModAckIterator fl)
      → IsValid it
      → IsValid (set_done fl key action it)
  unfolding set_done
  set_done-IsValid key ack it v = record {
    input = v.input;
    keep_alive = v.keep_alive;
    apart = λ k. set_done-apart key k ack it (v.apart k);
  }
  set_done-IsValid key nack it v = record {
    input = v.input;
    keep_alive = v.keep_alive;
    apart = λ k. set_done-apart key k nack it (v.apart k);
  }

  -- What `Done` makes of the iterator, given the histogram after it.
  abbrev pub after_record :
      Bytes → DoneAction → ModAckIterator fl → Distribution → ModAckIterator fl
  after_record ack_id action it dist =
      let it' : ModAckIterator fl = record it { ack_dist = dist } in
      if it.has_executor then set_done fl ack_id action it' else it'

  after_record-IsValid :
      (ack_id : Bytes) (action : DoneAction) (it : ModAckIterator fl) (dist : Distribution)
      (b : Bool)
      → IsValid it
      → IsValid (
          if b
          then set_done fl ack_id action (record it { ack_dist = dist })
          else record it { ack_dist = dist })
  after_record-IsValid ack_id action it dist true v =
      set_done-IsValid ack_id action (record it { ack_dist = dist })
        (record { input = v.input; keep_alive = v.keep_alive; apart = v.apart })
  after_record-IsValid ack_id action it dist false v = record {
    input = v.input;
    keep_alive = v.keep_alive;
    apart = v.apart;
  }

  pub done_lem :
      (ack_id : Bytes) (rt now : ℕ) (action : DoneAction) (it it' : ModAckIterator fl)
      → done fl ack_id rt now action it ≡ some it'
      → (dist : Distribution) × (after_record ack_id action it dist ≡ it')
  unfolding done
  done_lem ack_id rt now action it it' e = go (record_value (seconds_since rt now) it.ack_dist) e
    where
      go :
          (o : Option Distribution)
          → elim o [ none ↦ none | some dist ↦ some (after_record ack_id action it dist) ]
            ≡ some it'
          → (dist : Distribution) × (after_record ack_id action it dist ≡ it')
      go none e = absurd (cc)
      go (some dist) e = (dist, cc)

  done-IsValid :
      (ack_id : Bytes) (rt now : ℕ) (action : DoneAction) (it it' : ModAckIterator fl)
      → done fl ack_id rt now action it ≡ some it'
      → IsValid it
      → IsValid it'
  done-IsValid ack_id rt now action it it' e v =
      let (dist, same) = done_lem ack_id rt now action it it' e in
      subst IsValid same (after_record-IsValid ack_id action it dist it.has_executor v)

  taken-IsValid :
      (it : ModAckIterator fl) (b : Bool)
      → IsValid it
      → let taken : (KeySet × KeySet) × ModAckIterator fl =
          if b
          then (
            (it.pending_ack_ids, it.pending_nack_ids),
            record it { pending_ack_ids = []; pending_nack_ids = [] },
          )
          else (([], []), it) in
        IsValid taken.1
  unfolding contains
  taken-IsValid it true v = record { input = v.input; keep_alive = v.keep_alive; apart = λ k. refl }
  taken-IsValid it false v = v

  watched-IsValid :
      (ack_id : Bytes) (next_ack : ℕ) (it : ModAckIterator fl)
      → IsValid it
      → IsValid (add_deadline_watcher fl ack_id next_ack it)
  unfolding add_deadline_watcher
  watched-IsValid ack_id next_ack it v = go it.has_executor
    where
      it' : ModAckIterator fl
      it' = record it {
        input_ack_ids = insert_or_assign ack_id (record { next_ack = next_ack }) it.input_ack_ids;
      }

      go : (b : Bool) → IsValid (if b then it' else it)
      go true = record {
        input = insert-IsDistinct ack_id (record { next_ack = next_ack }) it.input_ack_ids v.input;
        keep_alive = v.keep_alive;
        apart = v.apart;
      }
      go false = v

  Change-IsValid : (it it' : ModAckIterator fl) → Change it it' → IsValid it → IsValid it'
  unfolding merge_input take_pending
  Change-IsValid it _ (watched ack_id next_ack _) v = watched-IsValid ack_id next_ack it v
  Change-IsValid it it' (settled ack_id rt now action _ _ e) v =
      done-IsValid ack_id rt now action it it' e v
  Change-IsValid it _ (merged _) v = record {
    input = tt;
    keep_alive = merge-IsDistinct it.keep_alive_ack_ids it.input_ack_ids v.keep_alive;
    apart = v.apart;
  }
  Change-IsValid it _ (taken _) v = taken-IsValid it it.has_executor v

  -- However the threads' calls under the lock are ordered, no id stands twice in the input map or in
  -- the map of the watched ids, and no id waits for an acknowledgement and for a deadline of 0 seconds
  -- at once, if that was so before.
  pub Changes-IsValid : (it it' : ModAckIterator fl) → Changes it it' → IsValid it → IsValid it'
  Changes-IsValid it _ (start _) v = v
  Changes-IsValid it it'' (next _ it' _ changes change) v =
      Change-IsValid it' it'' change (Changes-IsValid it it' changes v)

  -- Whether an action asks for an acknowledgement.
  abbrev pub is_ack : DoneAction → Bool
  is_ack ack = true
  is_ack nack = false

  set_done-decides :
      (key : Bytes) (action : DoneAction) (it : ModAckIterator fl)
      → (contains key (set_done fl key action it).pending_ack_ids ≡ is_ack action)
        × (contains key (set_done fl key action it).pending_nack_ids ≡ not (is_ack action))
  unfolding set_done
  set_done-decides key ack it = (
    ground (arith, contains-emplace key key it.pending_ack_ids),
    ground (arith, contains-erase key key it.pending_nack_ids),
  )
  set_done-decides key nack it = (
    ground (arith, contains-erase key key it.pending_ack_ids),
    ground (arith, contains-emplace key key it.pending_nack_ids),
  )

  -- A call of `Done` decides what becomes of its id, whatever was pending before: after it the id waits
  -- for what the action says and not for the other. The executor is alive.
  pub done-decides :
      (ack_id : Bytes) (rt now : ℕ) (action : DoneAction) (it it' : ModAckIterator fl)
      → it.has_executor ≡ true
      → done fl ack_id rt now action it ≡ some it'
      → (contains ack_id it'.pending_ack_ids ≡ is_ack action)
        × (contains ack_id it'.pending_nack_ids ≡ not (is_ack action))
  done-decides ack_id rt now action it it' alive e =
      let (dist, same) = done_lem ack_id rt now action it it' e in
      let it₁ : ModAckIterator fl = record it { ack_dist = dist } in
      let chosen : set_done fl ack_id action it₁ ≡ after_record ack_id action it dist =
        rw alive refl in
      subst
        (λ i.
          (contains ack_id i.pending_ack_ids ≡ is_ack action)
          × (contains ack_id i.pending_nack_ids ≡ not (is_ack action)))
        (chosen ∙ same) (set_done-decides ack_id action it₁)
