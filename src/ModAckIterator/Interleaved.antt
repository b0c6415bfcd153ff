-- ===== src/ModAckIterator/Interleaved.antt =====
-- `ProcessModAcks` of pubsuber/src/ModAckIterator.cpp among the calls of the users' threads: each run
-- is one in which those calls come at two points only.
use pubsuber.Base.{ℕ, zero, suc, ◌/◌, refl, List, [], ◌∷◌, Bytes, Option, none, some, length}
use pubsuber.Containers.{Map, KeySet}
use pubsuber.Double.{Float}
use pubsuber.Io.{Outcome, returned, threw, blocked, terminated, Act, ◌>>◌, pure, read_clock}
use pubsuber.Algorithms.{PackSet, pack_id, split_request_ids, give_me_the_keys}
use pubsuber.ModAckIterator.State.{AckWatchDescriptor, so_many_milliseconds, ack_deadline}
use pubsuber.ModAckIterator.Requests.{
  Session, set_id, max_payload, drain, is_due, ack_batch, nack_batch, send_acks, send_nacks,
  extend_packs, extend_due, modify_watched, modify_ack_deadlines, unwatch, or_terminate,
}
use pubsuber.ModAckIterator.Local.{
  IsLocal, bind-IsLocal, drain-IsLocal, ack_messages-IsLocal, nack_batch-IsLocal,
  extend_packs-IsLocal,
}
use pubsuber.ModAckIterator.Concurrent.{
  Concurrent, alone, others, drain_among, send_acks_among, send_nacks_among, extend_due_among,
  modify_watched_among, modify_among, or_terminate_among, sends_among, extends_among,
}
use pubsuber.ModAckIterator.Refinement.{
  Reached, Agrees, Refines, alone-Refines, others-Refines, bind-Refines,
}

module _ (fl : Float) where
  module _ {A : Type 0} (id : A → Bytes) (handle : List A → Act (Session fl) (Unit {0}))
      (local : (batch : List A) → IsLocal fl (handle batch)) where
    drain-Refines :
        (rounds : ℕ) (ids : List A)
        → Refines fl (drain fl id handle rounds ids) (drain_among fl id handle rounds ids)
    unfolding drain drain_among
    drain-Refines rounds [] = alone-Refines fl (pure tt)
    drain-Refines zero (x ∷ ids) = λ c. refl
    drain-Refines (suc rounds) (x ∷ ids) =
        let (rest, to_send) = split_request_ids id (x ∷ ids) max_payload in
        bind-Refines fl (pure tt) (λ u. handle to_send >> drain fl id handle rounds rest)
          (others fl) (λ u. alone fl (handle to_send) >> drain_among fl id handle rounds rest)
          (others-Refines fl)
          (λ u.
            bind-Refines fl (handle to_send) (λ v. drain fl id handle rounds rest)
              (alone fl (handle to_send)) (λ v. drain_among fl id handle rounds rest)
              (alone-Refines fl (handle to_send)) (λ v. drain-Refines rounds rest)
              (λ v. drain-IsLocal fl id handle local rounds rest))
          (λ u.
            bind-IsLocal fl (handle to_send) (λ v. drain fl id handle rounds rest) (local to_send)
              (λ v. drain-IsLocal fl id handle local rounds rest))

  -- The first half of `ProcessModAcks` with the pending ids that it took.
  unfoldable pub sends : KeySet → KeySet → Act (Session fl) (Unit {0})
  unfolding send_acks send_nacks
  sends pending_acks pending_nacks = do
    unwatch fl pending_acks
    send_acks fl pending_acks
    unwatch fl pending_nacks
    send_nacks fl pending_nacks

  -- The second half.
  unfoldable pub extends : Act (Session fl) ℕ
  unfolding modify_ack_deadlines
  extends s =
      or_terminate fl (ack_deadline fl s.it) (λ dl. modify_ack_deadlines fl dl s.it.grace_period) s

  send_acks-IsLocal : (ids : KeySet) → IsLocal fl (send_acks fl ids)
  unfolding send_acks
  send_acks-IsLocal ids =
      drain-IsLocal fl set_id (ack_batch fl) (λ batch. ack_messages-IsLocal fl _) (suc (length ids))
        ids

  send_nacks-IsLocal : (ids : KeySet) → IsLocal fl (send_nacks fl ids)
  unfolding send_nacks
  send_nacks-IsLocal ids =
      drain-IsLocal fl set_id (nack_batch fl) (nack_batch-IsLocal fl) (suc (length ids)) ids

  send_acks-Refines : (ids : KeySet) → Refines fl (send_acks fl ids) (send_acks_among fl ids)
  unfolding send_acks send_acks_among
  send_acks-Refines ids =
      drain-Refines set_id (ack_batch fl) (λ batch. ack_messages-IsLocal fl _) (suc (length ids))
        ids

  send_nacks-Refines : (ids : KeySet) → Refines fl (send_nacks fl ids) (send_nacks_among fl ids)
  unfolding send_nacks send_nacks_among
  send_nacks-Refines ids =
      drain-Refines set_id (nack_batch fl) (nack_batch-IsLocal fl) (suc (length ids)) ids

  pub sends-Refines :
      (acks nacks : KeySet) → Refines fl (sends acks nacks) (sends_among fl acks nacks)
  unfolding sends sends_among
  sends-Refines acks nacks =
      bind-Refines fl (unwatch fl acks) _ (alone fl (unwatch fl acks)) _
        (alone-Refines fl (unwatch fl acks))
        (λ u.
          bind-Refines fl (send_acks fl acks) _ (send_acks_among fl acks) _ (send_acks-Refines acks)
            (λ u.
              bind-Refines fl (unwatch fl nacks) _ (alone fl (unwatch fl nacks)) _
                (alone-Refines fl (unwatch fl nacks)) (λ u. send_nacks-Refines nacks)
                (λ u. send_nacks-IsLocal nacks))
            (λ u.
              bind-IsLocal fl (unwatch fl nacks) _ (λ c s. refl) (λ u. send_nacks-IsLocal nacks)))
        (λ u.
          bind-IsLocal fl (send_acks fl acks) _ (send_acks-IsLocal acks) (λ u.
            bind-IsLocal fl (unwatch fl nacks) _ (λ c s. refl) (λ u. send_nacks-IsLocal nacks)))

  pub sends-IsLocal : (acks nacks : KeySet) → IsLocal fl (sends acks nacks)
  unfolding sends
  sends-IsLocal acks nacks =
      bind-IsLocal fl (unwatch fl acks) _ (λ c s. refl)
        (λ u.
          bind-IsLocal fl (send_acks fl acks) _ (send_acks-IsLocal acks) (λ u.
            bind-IsLocal fl (unwatch fl nacks) _ (λ c s. refl) (λ u. send_nacks-IsLocal nacks)))

  extend_due-IsLocal : (dl sleep : ℕ) (packs : PackSet) → IsLocal fl (extend_due fl packs sleep dl)
  unfolding extend_due
  extend_due-IsLocal dl sleep [] = λ c s. refl
  extend_due-IsLocal dl sleep (p ∷ packs) =
      bind-IsLocal fl (drain fl pack_id (extend_packs fl dl) (suc (length (p ∷ packs))) (p ∷ packs))
        (λ u. pure so_many_milliseconds)
        (drain-IsLocal fl pack_id (extend_packs fl dl) (extend_packs-IsLocal fl dl)
          (suc (length (p ∷ packs))) (p ∷ packs))
        (λ u c s. refl)

  pub modify_watched-IsLocal :
      (dl grace : ℕ) (ids : Map AckWatchDescriptor) → IsLocal fl (modify_watched fl ids dl grace)
  unfolding modify_watched
  modify_watched-IsLocal dl grace [] c s = refl
  modify_watched-IsLocal dl grace (w ∷ ids) c s =
      let (now, world) = read_clock s.world in
      let (packs, sleep) = give_me_the_keys (is_due grace now) (w ∷ ids) [] so_many_milliseconds in
      extend_due-IsLocal dl sleep packs c (record s { world = world })

  extend_due-Refines :
      (dl sleep : ℕ) (packs : PackSet)
      → Refines fl (extend_due fl packs sleep dl) (extend_due_among fl packs sleep dl)
  unfolding extend_due extend_due_among
  extend_due-Refines dl sleep [] = alone-Refines fl (pure (sleep / 2))
  extend_due-Refines dl sleep (p ∷ packs) =
      bind-Refines fl (drain fl pack_id (extend_packs fl dl) (suc (length (p ∷ packs))) (p ∷ packs))
        (λ u. pure so_many_milliseconds)
        (drain_among fl pack_id (extend_packs fl dl) (suc (length (p ∷ packs))) (p ∷ packs))
        (λ u. pure so_many_milliseconds)
        (drain-Refines pack_id (extend_packs fl dl) (extend_packs-IsLocal fl dl)
          (suc (length (p ∷ packs))) (p ∷ packs))
        (λ u. alone-Refines fl (pure so_many_milliseconds)) (λ u c s. refl)

  -- Where the session stood before does not matter.
  Reached-from :
      (c : Concurrent fl) (s s' : Session fl) (c' : Concurrent fl)
      → Reached fl (record c { session = s }) s' c'
      → Reached fl c s' c'
  Reached-from c s s' c' h = record {
    used = h.used;
    in_order = h.in_order;
    calls_last = h.calls_last;
    same_world = h.same_world;
  }

  pub Agrees-from :
      {A : Type 0} (c : Concurrent fl) (s : Session fl) (o : Outcome (Session fl) A)
      (p : Outcome (Concurrent fl) A)
      → Agrees fl (record c { session = s }) o p
      → Agrees fl c o p
  Agrees-from c s o (returned a c') (s', e, h) = (s', e, Reached-from c s s' c' h)
  Agrees-from c s o (threw x c') (s', e, h) = (s', e, Reached-from c s s' c' h)
  Agrees-from c s o blocked e = e
  Agrees-from c s o terminated e = tt

  pub modify_watched-Refines :
      (dl grace : ℕ) (ids : Map AckWatchDescriptor)
      → Refines fl (modify_watched fl ids dl grace) (modify_watched_among fl ids dl grace)
  unfolding modify_watched modify_watched_among
  modify_watched-Refines dl grace [] c = alone-Refines fl (pure so_many_milliseconds) c
  modify_watched-Refines dl grace (w ∷ ids) c =
      let (now, world) = read_clock c.session.world in
      let (packs, sleep) = give_me_the_keys (is_due grace now) (w ∷ ids) [] so_many_milliseconds in
      let s : Session fl = record c.session { world = world } in
      Agrees-from c s (extend_due fl packs sleep dl s)
        (extend_due_among fl packs sleep dl (record c { session = s }))
        (extend_due-Refines dl sleep packs (record c { session = s }))

  pub extends-Refines : Refines fl extends (extends_among fl)
  unfolding extends extends_among modify_ack_deadlines modify_among
  extends-Refines c = go (ack_deadline fl c.session.it)
    where
      go :
          (o : Option ℕ)
          → Agrees fl c
              (or_terminate fl o
                (λ dl. modify_ack_deadlines fl dl c.session.it.grace_period)
                c.session)
              (or_terminate_among fl o (λ dl. modify_among fl dl c.session.it.grace_period) c)
      go none = tt
      go (some dl) =
          modify_watched-Refines dl c.session.it.grace_period c.session.it.keep_alive_ack_ids c
