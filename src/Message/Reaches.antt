-- ===== src/Message/Reaches.antt =====
-- What becomes of a message of pubsuber/src/MessageImpl.cpp at the service: from the call that settles
-- it to the request that ModAckIterator.cpp sends for it.
use pubsuber.Base.{
  ℕ, ◌≤◌, ◌≡◌, ◌≢◌, refl, sym, ap, ◌∙◌, List, [], ◌∷◌, Bytes, true, Option, none, some, Occurs,
  length, arith,
}
use mathlib.Core.Option
use pubsuber.Containers.{KeySet, contains}
use pubsuber.Double.{Float, IsIeee}
use pubsuber.Io.{Request, acknowledge, World, Ends}
use pubsuber.Io.Rules.{Holds-mono}
use pubsuber.ModAckIterator.{ModAckIterator, DoneAction, ack, nack, done}
use pubsuber.ModAckIterator.Requests.{Session, process_mod_acks}
use pubsuber.ModAckIterator.Drain.{Covered}
use pubsuber.ModAckIterator.Sends.{nack_request}
use pubsuber.ModAckIterator.Process.{Processed}
use pubsuber.ModAckIterator.Outcome.{AllSent}
use pubsuber.ModAckIterator.Ready.{IsReady, cost, process_mod_acks-AllSent}
use pubsuber.ModAckIterator.Pending.{Changes, settled}
use pubsuber.ModAckIterator.Decisions.{
  Decisions, Label, decides, takes_all, quiet, decided, replay, labels, pending, Change-Follows,
  Changes-replay,
}
use pubsuber.Message.{Held}
use pubsuber.Message.Settled.{live, let_go, first_call, live-first}

-- The request that settles ids at the service.
abbrev pub request_of : DoneAction → Bytes → List Bytes → Request
request_of ack = acknowledge
request_of nack = nack_request

-- No step decides the id again, and no step takes the pending ids.
abbrev pub IsUntouched : Bytes → List Label → Type 0
IsUntouched k [] = Unit {0}
IsUntouched k (decides j action ∷ ls) = (j ≢ k) × IsUntouched k ls
IsUntouched k (takes_all ∷ ls) = ⊥
IsUntouched k (quiet ∷ ls) = IsUntouched k ls

replay-IsUntouched :
    (k : Bytes) (ls : List Label) (m : Decisions) → IsUntouched k ls → replay ls m k ≡ m k
replay-IsUntouched k [] m h = refl
replay-IsUntouched k (decides j action ∷ ls) m h = ground (arith, replay-IsUntouched k ls m h.1)
replay-IsUntouched k (takes_all ∷ ls) m h = absurd h
replay-IsUntouched k (quiet ∷ ls) m h = replay-IsUntouched k ls m h

Occurs-contains : (k : Bytes) (s : KeySet) → contains k s ≡ true → Occurs k s
unfolding contains
Occurs-contains k [] h = absurd (cc)
Occurs-contains k (j ∷ s) h = ground (arith, Occurs-contains k s)

decided_ack :
    (acks nacks : KeySet) (k : Bytes) → decided acks nacks k ≡ some ack → contains k acks ≡ true
decided_ack acks nacks k h = ground arith

decided_nack :
    (acks nacks : KeySet) (k : Bytes) → decided acks nacks k ≡ some nack → contains k nacks ≡ true
decided_nack acks nacks k h = ground arith

module _ (fl : Float) where
  sent :
      (action : DoneAction) (k : Bytes) (s t : Session fl) (alive : s.it.has_executor ≡ true)
      → pending fl s.it k ≡ some action
      → AllSent fl s alive t
      → Covered s.it.subscription_name (request_of action) k t.world
  sent ack k s t alive e h = h.1 k (
      Occurs-contains k s.it.pending_ack_ids
        (decided_ack s.it.pending_ack_ids s.it.pending_nack_ids k e))
  sent nack k s t alive e h = h.2 k (
      Occurs-contains k s.it.pending_nack_ids
        (decided_nack s.it.pending_ack_ids s.it.pending_nack_ids k e))

  mapped :
      (h h' : Held fl) (o : Option (ModAckIterator fl))
      → Option.map (let_go fl h) o ≡ some h'
      → o ≡ some h'.it
  mapped h h' none e = absurd (cc)
  mapped h h' (some it) e = let same : it ≡ h'.it = cc in ap some same

  -- The first call of a message decides what its iterator has pending for it.
  told :
      (calls : List (DoneAction × ℕ)) (end : ℕ) (h h' : Held fl)
      → h.message.attached ≡ true
      → h.alive ≡ true
      → h.it.has_executor ≡ true
      → live fl calls end h ≡ some h'
      → (h'.it.has_executor ≡ true)
        × (pending fl h'.it h.message.ack_id ≡ some (first_call fl calls end).0)
  told calls end h h' attached alive executor e =
      let (action, now) = first_call fl calls end in
      let k : Bytes = h.message.ack_id in
      let made : done fl k h.message.receive_time now action h.it ≡ some h'.it =
        mapped h h' _ (sym (live-first fl calls end h attached alive) ∙ e) in
      let (still, follows) =
        Change-Follows fl h.it h'.it (settled k h.message.receive_time now action h.it h'.it made)
          executor in
      (still, follows k ∙ ground arith)

  -- A message is bound to an iterator whose owners hold it, and the executor lives. After its life, which
  -- may be calls of `Ack()` and `Nack()` and is the destructor at the end, and after any steps of the
  -- threads that neither decide its id again nor take the pending ids, `ProcessModAcks` is called. If the
  -- server gives enough answers and the other conditions for its end hold, then it throws an exception,
  -- or it returns and has sent the request that the first call asked for, with the message's id: an
  -- acknowledgement, or a deadline of 0 seconds, which is also what the destructor asks for.
  pub message_reaches_service :
      (calls : List (DoneAction × ℕ)) (end : ℕ) (h h' : Held fl) (it' : ModAckIterator fl)
      (changes : Changes fl h'.it it') (w : World)
      → h.message.attached ≡ true
      → h.alive ≡ true
      → h.it.has_executor ≡ true
      → live fl calls end h ≡ some h'
      → IsUntouched h.message.ack_id (labels fl changes)
      → IsIeee fl
      → IsReady fl it'
      → cost fl it' ≤ length w.replies
      → Ends
          (λ ms t.
            Covered it'.subscription_name
              (request_of (first_call fl calls end).0)
              h.message.ack_id
              t.world)
          (λ e t. Unit {0})
          (process_mod_acks fl (record { it = it'; world = w }))
  message_reaches_service calls end h h' it' changes w attached alive executor e untouched ieee
        ready room =
      let k : Bytes = h.message.ack_id in
      let s : Session fl = record { it = it'; world = w } in
      let action : DoneAction = (first_call fl calls end).0 in
      let (alive₁, decided₁) = told calls end h h' attached alive executor e in
      let still : pending fl it' k ≡ some action =
        (Changes-replay fl h'.it it' changes k alive₁).0
        ∙ replay-IsUntouched k (labels fl changes) (pending fl h'.it) untouched
        ∙ decided₁ in
      Holds-mono _ _ (λ e t. Processed fl s t) _ ⊥ (process_mod_acks fl s)
        (process_mod_acks-AllSent fl s ready ieee room)
        (λ ms t all. sent action k s t ready.alive still all.0) (λ e t p. tt)
