-- ===== src/ModAckIterator/Outcome.antt =====
-- `ProcessModAcks` of pubsuber/src/ModAckIterator.cpp as a whole: what was sent and what is watched
-- where it returns and where it throws, and that it ends.
use pubsuber.Base.{
  ℕ, ◌≡◌, inl, inr, refl, sym, subst, All-map, All-Occurs, Occurs-All, map, Bytes, true, none, some,
  All, Option, arith,
}
use pubsuber.Containers.{KeySet}
use pubsuber.Containers.Maps.{key_of_lookup, All-keys}
use pubsuber.Double.{Float}
use pubsuber.Io.{acknowledge, World, Holds, After}
use pubsuber.Io.Rules.{Holds-mono}
use pubsuber.Retriable.Spends.{Grown, Grown-mono}
use pubsuber.Algorithms.{PackSet, pack_id}
use pubsuber.Algorithms.Keys.{lookup-erase_keys}
use pubsuber.Algorithms.Split.{IsShort}
use pubsuber.ModAckIterator.State.{ack_deadline}
use pubsuber.ModAckIterator.Requests.{
  Session, set_id, max_payload, send_acks, send_nacks, modify_ack_deadlines, or_terminate,
  process_mod_acks,
}
use pubsuber.ModAckIterator.Drain.{FromBatch, Covered}
use pubsuber.ModAckIterator.Sends.{
  SentFrom, AllCovered, nack_request, extension, send_acks-Covered, send_nacks-Covered,
}
use pubsuber.ModAckIterator.Extension.{
  ShortIds, due-All, modify_ack_deadlines-Covered, due, pseudo_now,
}
use pubsuber.ModAckIterator.Process.{
  unwatched, taken_acks, taken_nacks, process-Holds, Processed, Processed-later, Acked, Nacked,
  NacksUnwatched, Covered-later, OnlyWatched, IsOwn, start, start-Processed, taken_lem,
}

module _ (fl : Float) (s : Session fl) (alive : s.it.has_executor ≡ true) where
  abbrev pub acks : KeySet
  acks = s.it.pending_ack_ids

  abbrev pub nacks : KeySet
  nacks = s.it.pending_nack_ids

  abbrev pub name : Bytes
  name = s.it.subscription_name

  IsOwn-ack :
      (n : Bytes) {v w : World}
      → n ≡ name
      → Grown (FromBatch n acknowledge set_id acks) v w
      → Grown (IsOwn fl s) v w
  IsOwn-ack n {v} {w} e g =
      Grown-mono (λ r h. inl h) (subst (λ m. Grown (FromBatch m acknowledge set_id acks) v w) e g)

  IsOwn-nack :
      (n : Bytes) {v w : World}
      → n ≡ name
      → Grown (FromBatch n nack_request set_id nacks) v w
      → Grown (IsOwn fl s) v w
  IsOwn-nack n {v} {w} e g =
      Grown-mono (λ r h. inr (inl h))
        (subst (λ m. Grown (FromBatch m nack_request set_id nacks) v w) e g)

  acks_phase :
      (ids : KeySet)
      → ids ≡ acks
      → All (IsShort set_id max_payload) acks
      → Holds
          (λ u t. Processed fl s t × Acked fl s t)
          (λ e t. Processed fl s t)
          Unit
          (send_acks fl ids (start fl s alive))
  acks_phase ids e short =
      let b : Session fl = start fl s alive in
      let begun : Processed fl s b = start-Processed fl s alive in
      rw e (
        Holds-mono
          (λ u t. SentFrom fl set_id acknowledge acks b t × AllCovered fl acknowledge acks b t)
          (λ u t. Processed fl s t × Acked fl s t) (λ e t. SentFrom fl set_id acknowledge acks b t)
          (λ e t. Processed fl s t) Unit (send_acks fl acks b) (send_acks-Covered fl acks b short)
          (λ u t h. (
            Processed-later fl s begun h.0.1
                (IsOwn-ack b.it.subscription_name begun.same_name h.0.0),
            λ k o. subst (λ n. Covered n acknowledge k t.world) begun.same_name (h.1 k o),
          ))
          (λ e t h.
            Processed-later fl s begun h.1 (IsOwn-ack b.it.subscription_name begun.same_name h.0)))

  -- Erasing the keys of the nacks.
  nacks_unwatched :
      (t : Session fl)
      → Processed fl s t
      → Processed fl s (unwatched fl nacks t) × NacksUnwatched fl s (unwatched fl nacks t)
  nacks_unwatched t h = (
    record {
      grown = h.grown;
      same_name = h.same_name;
      same_dist = h.same_dist;
      same_input = h.same_input;
      no_acks = h.no_acks;
      no_nacks = h.no_nacks;
      acks_unwatched = λ j e.
          ground (arith, h.acks_unwatched j e, lookup-erase_keys j t.it.keep_alive_ack_ids nacks);
      none_new =
          λ j e. ground (arith, h.none_new j e, lookup-erase_keys j t.it.keep_alive_ack_ids nacks);
      others_watched = λ j a n e.
          h.others_watched j a n
            (ground (arith, lookup-erase_keys j t.it.keep_alive_ack_ids nacks));
    },
    λ j e. ground (arith, lookup-erase_keys j t.it.keep_alive_ack_ids nacks),
  )

  abbrev pub AllSent : Session fl → Type 0
  AllSent t = Processed fl s t × Acked fl s t × Nacked fl s t × NacksUnwatched fl s t

  nacks_phase :
      (ids : KeySet) (t : Session fl)
      → ids ≡ nacks
      → All (IsShort set_id max_payload) nacks
      → Processed fl s t × Acked fl s t
      → Holds
          (λ u t'. AllSent t')
          (λ e t'. Processed fl s t')
          Unit
          (send_nacks fl ids (unwatched fl ids t))
  nacks_phase ids t e short (h, acked) =
      let b : Session fl = unwatched fl nacks t in
      let (begun, unwatched_nacks) = nacks_unwatched t h in
      rw e (
        Holds-mono
          (λ u t'.
            SentFrom fl set_id nack_request nacks b t' × AllCovered fl nack_request nacks b t')
          (λ u t'. AllSent t') (λ e t'. SentFrom fl set_id nack_request nacks b t')
          (λ e t'. Processed fl s t') Unit (send_nacks fl nacks b)
          (send_nacks-Covered fl nacks b short)
          (λ u t' g. (
            Processed-later fl s begun g.0.1
                (IsOwn-nack b.it.subscription_name begun.same_name g.0.0),
            λ k o. Covered-later fl s acknowledge k g.0.0 (acked k o),
            λ k o. subst (λ n. Covered n nack_request k t'.world) begun.same_name (g.1 k o),
            λ j n. g.0.1.none_new j (unwatched_nacks j n),
          ))
          (λ e t' g.
            Processed-later fl s begun g.1 (IsOwn-nack b.it.subscription_name begun.same_name g.0)))

  IsOwn-extension :
      (n : Bytes) (dl : ℕ) {v w : World} (packs : PackSet)
      → n ≡ name
      → ack_deadline fl s.it ≡ some dl
      → All (λ p. OnlyWatched fl s (pack_id p)) packs
      → Grown (FromBatch n (extension dl) pack_id packs) v w
      → Grown (IsOwn fl s) v w
  IsOwn-extension n dl {v} {w} packs e given watched g =
      Grown-mono
        (λ r h. inr (
          inr (
            dl,
            map pack_id h.0,
            given,
            All-map pack_id (OnlyWatched fl s) h.0 (
                All-Occurs (λ p. OnlyWatched fl s (pack_id p)) h.0
                  (λ a o.
                    Occurs-All (λ p. OnlyWatched fl s (pack_id p)) a packs watched (h.2 a o))),
            sym h.1,
          )))
        (subst (λ m. Grown (FromBatch m (extension dl) pack_id packs) v w) e g)

  -- What is watched after the nacks were sent was watched before, and nothing was pending for it.
  still_watched :
      (t : Session fl) → AllSent t → All (λ p. OnlyWatched fl s p.0) t.it.keep_alive_ack_ids
  still_watched t (h, acked, nacked, unwatched_nacks) =
      All-keys (OnlyWatched fl s) t.it.keep_alive_ack_ids (λ j n.
        (λ e. n (h.none_new j e), λ e. n (h.acks_unwatched j e), λ e. n (unwatched_nacks j e)))

  same_deadline :
      (t : Session fl) → t.it.ack_dist ≡ s.it.ack_dist → ack_deadline fl t.it ≡ ack_deadline fl s.it
  unfolding ack_deadline
  same_deadline t e = rw e refl

  extension_phase :
      (t : Session fl)
      → ShortIds s.it.keep_alive_ack_ids
      → AllSent t
      → Holds
          (λ ms t'. AllSent t')
          (λ e t'. Processed fl s t')
          Unit
          (or_terminate fl
            (ack_deadline fl t.it)
            (λ dl. modify_ack_deadlines fl dl t.it.grace_period)
            t)
  extension_phase t short (h, acked, nacked, unwatched_nacks) =
      go (ack_deadline fl t.it) (same_deadline t h.same_dist)
    where
      still_short : ShortIds t.it.keep_alive_ack_ids
      still_short = All-keys (IsShort set_id max_payload) t.it.keep_alive_ack_ids (λ j n.
          key_of_lookup (IsShort set_id max_payload) j s.it.keep_alive_ack_ids short
            (λ e. n (h.none_new j e)))

      go :
          (o : Option ℕ)
          → o ≡ ack_deadline fl s.it
          → Holds
              (λ ms t'. AllSent t')
              (λ e t'. Processed fl s t')
              Unit
              (or_terminate fl o (λ dl. modify_ack_deadlines fl dl t.it.grace_period) t)
      go none e = tt
      go (some dl) given =
          let packs : PackSet = due t.it.grace_period (pseudo_now fl t) t.it.keep_alive_ack_ids in
          let watched : All (λ p. OnlyWatched fl s (pack_id p)) packs =
            due-All t.it.grace_period (pseudo_now fl t) (OnlyWatched fl s) t.it.keep_alive_ack_ids
              (still_watched t (h, acked, nacked, unwatched_nacks)) in
          Holds-mono
            (λ ms t'.
              SentFrom fl pack_id (extension dl) packs t t'
              × AllCovered fl (extension dl) packs t t')
            (λ ms t'. AllSent t') (λ e t'. SentFrom fl pack_id (extension dl) packs t t')
            (λ e t'. Processed fl s t') Unit (modify_ack_deadlines fl dl t.it.grace_period t)
            (modify_ack_deadlines-Covered fl dl t.it.grace_period t still_short)
            (λ ms t' g. (
              Processed-later fl s h g.0.1 (
                  IsOwn-extension t.it.subscription_name dl packs h.same_name (sym given) watched
                    g.0.0),
              λ k o. Covered-later fl s acknowledge k g.0.0 (acked k o),
              λ k o. Covered-later fl s nack_request k g.0.0 (nacked k o),
              λ j n. g.0.1.none_new j (unwatched_nacks j n),
            ))
            (λ e t' g.
              Processed-later fl s h g.1 (
                IsOwn-extension t.it.subscription_name dl packs h.same_name (sym given) watched
                  g.0))

  -- While the executor lives and no id makes the 32-bit size of a request wrap around,
  -- `ProcessModAcks` empties both pending sets, also where it throws, and no longer watches the ids
  -- that were pending for an acknowledgement. It sends acknowledgements of those ids only,
  -- deadlines of 0 seconds of ids that were pending for that only, and for ids that are watched and
  -- pending for neither the deadline that `AckDeadline` gives, and nothing else. If it returns, each pending id was in a request of its kind, and none is watched.
  pub process_mod_acks-Processed :
      All (IsShort set_id max_payload) acks
      → All (IsShort set_id max_payload) nacks
      → ShortIds s.it.keep_alive_ack_ids
      → After (λ ms t. AllSent t) (λ e t. Processed fl s t) (process_mod_acks fl s)
  process_mod_acks-Processed short_acks short_nacks short =
      process-Holds fl (λ t. Processed fl s t × Acked fl s t) AllSent (λ ms t. AllSent t)
        (λ e t. Processed fl s t) Unit s
        (acks_phase (taken_acks fl s) (taken_lem fl s alive).0 short_acks)
        (λ t h. nacks_phase (taken_nacks fl s) t (taken_lem fl s alive).1 short_nacks h)
        (λ t h. extension_phase t short h)
