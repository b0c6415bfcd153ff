-- ===== src/ModAckIterator/Process.antt =====
-- `ProcessModAcks` of pubsuber/src/ModAckIterator.cpp: what becomes of the pending ids.
use pubsuber.Base.{
  ℕ, ◌≡◌, ◌≢◌, ◌⊎◌, ◌∙◌, List, [], Bytes, true, false, none, some, All, Occurs, arith,
}
use pubsuber.Containers.{KeySet, lookup, contains}
use pubsuber.Double.{Float}
use pubsuber.Io.{Exception, Request, modify_ack_deadline, acknowledge, World, Holds}
use pubsuber.Io.Rules.{Holds-bind}
use pubsuber.Retriable.Spends.{Grown, Grown-refl, Grown-trans}
use pubsuber.Algorithms.{erase_keys}
use pubsuber.Algorithms.Keys.{lookup-erase_keys}
use pubsuber.ModAckIterator.State.{ack_deadline}
use pubsuber.ModAckIterator.Requests.{
  Session, set_id, send_acks, send_nacks, modify_ack_deadlines, take_pending, or_terminate,
  process_mod_acks,
}
use pubsuber.ModAckIterator.Calls.{Same}
use pubsuber.ModAckIterator.Drain.{FromBatch, Covered}
use pubsuber.ModAckIterator.Sends.{nack_request}

module _ (fl : Float) where
  abbrev pub unwatched : KeySet → Session fl → Session fl
  unwatched ids s = record s {
    it = record s.it { keep_alive_ack_ids = erase_keys s.it.keep_alive_ack_ids ids };
  }

  -- The state after `ProcessModAcks` took the pending sets.
  abbrev pub taken : Session fl → Session fl
  taken s = record s { it = (take_pending fl s.it).1 }

  abbrev pub taken_acks : Session fl → KeySet
  taken_acks s = (take_pending fl s.it).0.0

  abbrev pub taken_nacks : Session fl → KeySet
  taken_nacks s = (take_pending fl s.it).0.1

  -- `ProcessModAcks` part by part.
  pub process-Holds :
      (P₁ P₂ : Session fl → Type 0) (P : ℕ → Session fl → Type 0)
      (Q : Exception → Session fl → Type 0) (B : Type 0) (s : Session fl)
      → Holds (λ u t. P₁ t) Q B (send_acks fl (taken_acks s) (unwatched (taken_acks s) (taken s)))
      → ((t : Session fl)
          → P₁ t
          → Holds (λ u t'. P₂ t') Q B (send_nacks fl (taken_nacks s) (unwatched (taken_nacks s) t)))
      → ((t : Session fl)
          → P₂ t
          → Holds P Q B (
              or_terminate fl
                (ack_deadline fl t.it)
                (λ dl. modify_ack_deadlines fl dl t.it.grace_period)
                t))
      → Holds P Q B (process_mod_acks fl s)
  unfolding process_mod_acks
  process-Holds P₁ P₂ P Q B s h₁ h₂ h₃ =
      Holds-bind (λ u t. P₁ t) P Q B (send_acks fl (taken_acks s)) _
        (unwatched (taken_acks s) (taken s)) h₁
        (λ u t p₁.
          Holds-bind (λ u t'. P₂ t') P Q B (send_nacks fl (taken_nacks s)) _
            (unwatched (taken_nacks s) t) (h₂ t p₁) (λ u t' p₂. h₃ t' p₂))

module _ (fl : Float) (s : Session fl) where
  abbrev pub acks : KeySet
  acks = s.it.pending_ack_ids

  abbrev pub nacks : KeySet
  nacks = s.it.pending_nack_ids

  abbrev pub name : Bytes
  name = s.it.subscription_name

  -- The id is watched, and nothing is pending for it.
  abbrev pub OnlyWatched : Bytes → Type 0
  OnlyWatched k =
      (lookup k s.it.keep_alive_ack_ids ≢ none)
      × (contains k acks ≢ true)
      × (contains k nacks ≢ true)

  -- Extensions, by the deadline that the iterator gives, of ids that are watched only.
  abbrev pub IsExtension : Request → Type 0
  IsExtension r =
      (dl : ℕ) × (ids : List Bytes) × (ack_deadline fl s.it ≡ some dl)
      × All OnlyWatched ids
      × (r ≡ modify_ack_deadline name ids dl)

  -- The requests that `ProcessModAcks` may send: acknowledgements of ids pending for that,
  -- deadlines of 0 seconds for ids pending for that, and extensions.
  abbrev pub IsOwn : Request → Type 0
  IsOwn r =
      FromBatch name acknowledge set_id acks r
      ⊎ FromBatch name nack_request set_id nacks r
      ⊎ IsExtension r

  -- What holds after `ProcessModAcks`, also where it throws.
  pub record Processed (t : Session fl) : Type 0 where
    pub grown : Grown IsOwn s.world t.world
    pub same_name : t.it.subscription_name ≡ name
    pub same_dist : t.it.ack_dist ≡ s.it.ack_dist
    pub same_input : t.it.input_ack_ids ≡ s.it.input_ack_ids
    pub no_acks : t.it.pending_ack_ids ≡ []
    pub no_nacks : t.it.pending_nack_ids ≡ []
    pub acks_unwatched :
        (j : Bytes) → contains j acks ≡ true → lookup j t.it.keep_alive_ack_ids ≡ none
    pub none_new :
        (j : Bytes)
        → lookup j s.it.keep_alive_ack_ids ≡ none
        → lookup j t.it.keep_alive_ack_ids ≡ none
    pub others_watched :
        (j : Bytes)
        → contains j acks ≡ false
        → contains j nacks ≡ false
        → lookup j t.it.keep_alive_ack_ids ≡ none
        → lookup j s.it.keep_alive_ack_ids ≡ none

  abbrev pub Acked : Session fl → Type 0
  Acked t = (k : Bytes) → Occurs k acks → Covered name acknowledge k t.world

  abbrev pub Nacked : Session fl → Type 0
  Nacked t = (k : Bytes) → Occurs k nacks → Covered name nack_request k t.world

  abbrev pub NacksUnwatched : Session fl → Type 0
  NacksUnwatched t = (j : Bytes) → contains j nacks ≡ true → lookup j t.it.keep_alive_ack_ids ≡ none

  pub Covered-later :
      {P : Request → Type 0} {A : Type 0} (request : Bytes → List A → Request) (a : A) {v w : World}
      → Grown P v w
      → Covered name request a v
      → Covered name request a w
  Covered-later request a g (batch, r, o) = (batch, g.keeps _ r, o)

  -- Calls that touch nothing of the iterator but the times keep it so.
  pub Processed-later :
      {t u : Session fl} → Processed t → Same fl t u → Grown IsOwn t.world u.world → Processed u
  Processed-later h same g = record {
    grown = Grown-trans h.grown g;
    same_name = same.same_name ∙ h.same_name;
    same_dist = same.same_dist ∙ h.same_dist;
    same_input = same.same_input ∙ h.same_input;
    no_acks = same.same_acks ∙ h.no_acks;
    no_nacks = same.same_nacks ∙ h.no_nacks;
    acks_unwatched = λ j e. same.none_new j (h.acks_unwatched j e);
    none_new = λ j e. same.none_new j (h.none_new j e);
    others_watched = λ j a n e. h.others_watched j a n (same.none_lost j e);
  }

  module _ (alive : s.it.has_executor ≡ true) where
    abbrev pub start : Session fl
    start = unwatched fl (taken_acks fl s) (taken fl s)

    pub taken_lem : (taken_acks fl s ≡ acks) × (taken_nacks fl s ≡ nacks)
    unfolding take_pending
    taken_lem = (rw alive, rw alive)

    pub start-Processed : Processed start
    unfolding take_pending
    start-Processed = record {
      grown = Grown-refl s.world;
      same_name = rw alive;
      same_dist = rw alive;
      same_input = rw alive;
      no_acks = rw alive;
      no_nacks = rw alive;
      acks_unwatched =
          λ j e. rw alive (ground (arith, lookup-erase_keys j s.it.keep_alive_ack_ids acks));
      none_new = λ j e. rw alive (ground (arith, lookup-erase_keys j s.it.keep_alive_ack_ids acks));
      others_watched =
          λ j a n. rw alive (λ e. ground (arith, lookup-erase_keys j s.it.keep_alive_ack_ids acks));
    }
