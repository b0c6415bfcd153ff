-- ===== src/ModAckIterator/Extension.antt =====
-- `ModifyAckDeadlines` in pubsuber/src/ModAckIterator.cpp: it asks for an extension of exactly the
-- watched deadlines that are due.
use pubsuber.Base.{
  leb, ◌^◌, ℕ, suc, ◌+◌, ◌*◌, ◌≤◌, ◌≡◌, refl, ap, ◌∙◌, if◌then◌else◌, [], ◌∷◌, Bytes, none, some,
  length, All, arith,
}
use native.Mathlib.Nat.{mul-le-mul_left}
use pubsuber.Containers.{Map, lookup}
use pubsuber.Containers.Distinct.{IsDistinct}
use pubsuber.Double.{Float}
use pubsuber.Io.{Outcome, returned, Ends, After, read_clock}
use pubsuber.Io.Rules.{Holds-bind, Holds-mono}
use pubsuber.Retriable.{Policies}
use pubsuber.Retriable.Attempts.{IsLimited}
use pubsuber.Retriable.Spends.{Grown-refl}
use pubsuber.Algorithms.{PackSet, pack_id, give_keys, give_me_the_keys}
use pubsuber.Algorithms.Keys.{give_me_the_keys-All, give_me_the_keys_lem, taken_entry}
use pubsuber.Algorithms.Split.{IsShort, Fits}
use pubsuber.ModAckIterator.State.{AckWatchDescriptor, extend_in, so_many_milliseconds}
use pubsuber.ModAckIterator.Requests.{
  Session, set_id, max_payload, is_due, drain, extend_packs, extend_due, modify_watched,
  modify_ack_deadlines,
}
use pubsuber.ModAckIterator.Calls.{Same-of-eq, tries, replies_left}
use pubsuber.ModAckIterator.Sends.{SentFrom, AllCovered, extension, extend-Covered, extend-Ends}

-- The ids whose deadlines are due at `now`, with their iterators.
abbrev pub due : ℕ → ℕ → Map AckWatchDescriptor → PackSet
due grace now ids = (give_me_the_keys (is_due grace now) ids [] so_many_milliseconds).0

abbrev pub ShortIds : Map AckWatchDescriptor → Type 0
ShortIds = All (λ p. IsShort set_id max_payload p.0)

abbrev pub FitIds : Map AckWatchDescriptor → Type 0
FitIds = All (λ p. Fits set_id max_payload p.0)

is_due_answers :
    (grace now : ℕ) (d : AckWatchDescriptor) (sleep : ℕ)
    → (is_due grace now d sleep).0 ≡ (is_due grace now d 0).0
unfolding is_due
is_due_answers grace now d sleep = ground arith

due_entry :
    (grace now : ℕ) (j : Bytes) (d : AckWatchDescriptor)
    → (if (is_due grace now d 0).0 then some j else none)
      ≡ (if leb (now + (grace * 1000 + 1) * 10 ^ 6) d.next_ack then none else some j)
unfolding is_due extend_in
due_entry grace now j d = ground arith

-- In a map whose ids are distinct, a watched id is due, with an iterator to its own entry, exactly
-- when its deadline does not lie further ahead than the grace period, in whole milliseconds.
pub lookup-due :
    (grace now : ℕ) (ids : Map AckWatchDescriptor) (j : Bytes) (d : AckWatchDescriptor)
    → IsDistinct ids
    → lookup j ids ≡ some d
    → lookup j (due grace now ids)
      ≡ (if leb (now + (grace * 1000 + 1) * 10 ^ 6) d.next_ack then none else some j)
lookup-due grace now ids j d distinct e =
    give_me_the_keys_lem (is_due grace now) (λ d'. (is_due grace now d' 0).0)
      (is_due_answers grace now) j ids so_many_milliseconds distinct
    ∙ ap
        (taken_entry (is_due grace now) (λ d'. (is_due grace now d' 0).0) (is_due_answers grace now)
          j)
        e
    ∙ due_entry grace now j d

pub lookup-due-none :
    (grace now : ℕ) (ids : Map AckWatchDescriptor) (j : Bytes)
    → IsDistinct ids
    → lookup j ids ≡ none
    → lookup j (due grace now ids) ≡ none
lookup-due-none grace now ids j distinct e =
    give_me_the_keys_lem (is_due grace now) (λ d'. (is_due grace now d' 0).0)
      (is_due_answers grace now) j ids so_many_milliseconds distinct
    ∙ ap
        (taken_entry (is_due grace now) (λ d'. (is_due grace now d' 0).0) (is_due_answers grace now)
          j)
        e

pub due-All :
    (grace now : ℕ) (P : Bytes → Type 0) (ids : Map AckWatchDescriptor)
    → All (λ p. P p.0) ids
    → All (λ p. P (pack_id p)) (due grace now ids)
due-All grace now P ids h = (give_me_the_keys-All (is_due grace now) P ids so_many_milliseconds h).0

due-ShortIds :
    (grace now : ℕ) (ids : Map AckWatchDescriptor)
    → ShortIds ids
    → All (IsShort pack_id max_payload) (due grace now ids)
due-ShortIds grace now ids h =
    (give_me_the_keys-All (is_due grace now) (IsShort set_id max_payload) ids so_many_milliseconds
      h).0

due-FitIds :
    (grace now : ℕ) (ids : Map AckWatchDescriptor)
    → FitIds ids
    → All (Fits pack_id max_payload) (due grace now ids) × (length (due grace now ids) ≤ length ids)
due-FitIds grace now ids h =
    give_me_the_keys-All (is_due grace now) (Fits set_id max_payload) ids so_many_milliseconds h

module _ (fl : Float) where
  -- The clock reading that `ModifyAckDeadlines` compares with.
  abbrev pub pseudo_now : Session fl → ℕ
  pseudo_now s = s.world.clock s.world.reads

  abbrev ticked : Session fl → Session fl
  ticked s = record s { world = (read_clock s.world).1 }

  extend_due-Covered :
      (dl sleep : ℕ) (packs : PackSet) (s : Session fl)
      → All (IsShort pack_id max_payload) packs
      → After
          (λ ms s'.
            SentFrom fl pack_id (extension dl) packs s s' × AllCovered fl (extension dl) packs s s')
          (λ e s'. SentFrom fl pack_id (extension dl) packs s s')
          (extend_due fl packs sleep dl s)
  unfolding extend_due
  extend_due-Covered dl sleep [] s short =
      ((Grown-refl s.world, Same-of-eq fl s s refl), λ a o. absurd o)
  extend_due-Covered dl sleep (p ∷ packs) s short =
      Holds-bind
        (λ u s'.
          SentFrom fl pack_id (extension dl) (p ∷ packs) s s'
          × AllCovered fl (extension dl) (p ∷ packs) s s')
        (λ ms s'.
          SentFrom fl pack_id (extension dl) (p ∷ packs) s s'
          × AllCovered fl (extension dl) (p ∷ packs) s s')
        (λ e s'. SentFrom fl pack_id (extension dl) (p ∷ packs) s s') Unit
        (drain fl pack_id (extend_packs fl dl) (suc (length (p ∷ packs))) (p ∷ packs))
        (λ u s'. returned so_many_milliseconds s') s
        (extend-Covered fl dl (suc (length (p ∷ packs))) (p ∷ packs) s short) (λ u s' h. h)

  -- The call ends, and uses up no more answers than the tries of `n` calls.
  abbrev pub EndsUsing : Policies fl → Session fl → ℕ → Outcome (Session fl) ℕ → Type 0
  EndsUsing p s n =
      Ends (λ ms s'. replies_left fl s ≤ replies_left fl s' + tries fl p * n) (λ e s'. Unit {0})

  extend_due-Ends :
      (p : Policies fl)
      → IsLimited p.count_policy
      → (dl sleep : ℕ) (packs : PackSet) (s : Session fl) → s.it.policies ≡ p
      → All (Fits pack_id max_payload) packs
      → tries fl p * length packs ≤ replies_left fl s
      → EndsUsing p s (length packs) (extend_due fl packs sleep dl s)
  unfolding extend_due
  extend_due-Ends p limited dl sleep [] s same fits room = omega arith
  extend_due-Ends p limited dl sleep (x ∷ packs) s same fits room =
      Holds-bind
        (λ u s'.
          (replies_left fl s ≤ replies_left fl s' + tries fl p * length (x ∷ packs))
          × (s'.it.policies ≡ p))
        (λ ms s'. replies_left fl s ≤ replies_left fl s' + tries fl p * length (x ∷ packs))
        (λ e s'. Unit {0}) ⊥
        (drain fl pack_id (extend_packs fl dl) (suc (length (x ∷ packs))) (x ∷ packs))
        (λ u s'. returned so_many_milliseconds s') s
        (extend-Ends fl p limited dl (x ∷ packs) s same fits room) (λ u s' h. h.0)

  modify_watched-Covered :
      (dl grace : ℕ) (ids : Map AckWatchDescriptor) (s : Session fl)
      → ShortIds ids
      → After
          (λ ms s'.
            SentFrom fl pack_id (extension dl) (due grace (pseudo_now s) ids) s s'
            × AllCovered fl (extension dl) (due grace (pseudo_now s) ids) s s')
          (λ e s'. SentFrom fl pack_id (extension dl) (due grace (pseudo_now s) ids) s s')
          (modify_watched fl ids dl grace s)
  unfolding modify_watched give_me_the_keys give_keys
  modify_watched-Covered dl grace [] s short =
      ((Grown-refl s.world, Same-of-eq fl s s refl), λ a o. absurd o)
  modify_watched-Covered dl grace (w ∷ ids) s short =
      let packs : PackSet = due grace (pseudo_now s) (w ∷ ids) in
      Holds-mono
        (λ ms s'.
          SentFrom fl pack_id (extension dl) packs (ticked s) s'
          × AllCovered fl (extension dl) packs (ticked s) s')
        (λ ms s'.
          SentFrom fl pack_id (extension dl) packs s s' × AllCovered fl (extension dl) packs s s')
        (λ e s'. SentFrom fl pack_id (extension dl) packs (ticked s) s')
        (λ e s'. SentFrom fl pack_id (extension dl) packs s s') Unit _
        (extend_due-Covered dl _ packs (ticked s)
          (due-ShortIds grace (pseudo_now s) (w ∷ ids) short))
        (λ ms s' h. (untick packs s' h.0, h.1)) (λ e s' h. untick packs s' h)
    where
      untick :
          (packs : PackSet) (s' : Session fl)
          → SentFrom fl pack_id (extension dl) packs (ticked s) s'
          → SentFrom fl pack_id (extension dl) packs s s'
      untick packs s' (g, same) = (
        record { keeps = g.keeps; only = g.only; spent = g.spent; same_clock = g.same_clock },
        record {
          same_name = same.same_name;
          same_grace = same.same_grace;
          same_dist = same.same_dist;
          same_executor = same.same_executor;
          same_policies = same.same_policies;
          same_input = same.same_input;
          same_acks = same.same_acks;
          same_nacks = same.same_nacks;
          none_new = same.none_new;
          none_lost = same.none_lost;
          same_count = same.same_count;
        },
      )

  -- If no id makes the 32-bit size of a request wrap around, `ModifyAckDeadlines` sends requests
  -- for ids that are due only, each below the maximum size or without ids, and if it returns, each
  -- id that is due was in a request for the new deadline.
  pub modify_ack_deadlines-Covered :
      (dl grace : ℕ) (s : Session fl)
      → ShortIds s.it.keep_alive_ack_ids
      → let packs = due grace (pseudo_now s) s.it.keep_alive_ack_ids in
        After
          (λ ms s'.
            SentFrom fl pack_id (extension dl) packs s s' × AllCovered fl (extension dl) packs s s')
          (λ e s'. SentFrom fl pack_id (extension dl) packs s s')
          (modify_ack_deadlines fl dl grace s)
  unfolding modify_ack_deadlines
  modify_ack_deadlines-Covered dl grace s short =
      modify_watched-Covered dl grace s.it.keep_alive_ack_ids s short

  module _ (p : Policies fl) (limited : IsLimited p.count_policy) where
    modify_watched-Ends :
        (dl grace : ℕ) (ids : Map AckWatchDescriptor) (s : Session fl)
        → s.it.policies ≡ p
        → FitIds ids
        → tries fl p * length ids ≤ replies_left fl s
        → EndsUsing p s (length ids) (modify_watched fl ids dl grace s)
    unfolding modify_watched
    modify_watched-Ends dl grace [] s same fits room = omega arith
    modify_watched-Ends dl grace (w ∷ ids) s same fits room =
        let now : ℕ = pseudo_now s in
        let (fit, few) = due-FitIds grace now (w ∷ ids) fits in
        let less : tries fl p * length (due grace now (w ∷ ids)) ≤ tries fl p * length (w ∷ ids) =
          mul-le-mul_left (tries fl p) few in
        by_due (due grace now (w ∷ ids)) _ fit (omega arith) less
      where
        by_due :
            (packs : PackSet) (sleep : ℕ)
            → All (Fits pack_id max_payload) packs
            → tries fl p * length packs ≤ replies_left fl (ticked s)
            → tries fl p * length packs ≤ tries fl p * length (w ∷ ids)
            → EndsUsing p s (length (w ∷ ids)) (extend_due fl packs sleep dl (ticked s))
        by_due packs sleep fit less fewer =
            Holds-mono
              (λ ms s'. replies_left fl (ticked s) ≤ replies_left fl s' + tries fl p * length packs)
              (λ ms s'. replies_left fl s ≤ replies_left fl s' + tries fl p * length (w ∷ ids))
              (λ e s'. Unit {0}) (λ e s'. Unit {0}) ⊥ (extend_due fl packs sleep dl (ticked s))
              (extend_due-Ends p limited dl sleep packs (ticked s) same fit less)
              (λ ms s' h. omega arith) (λ e s' h. tt)

    -- `ModifyAckDeadlines` ends, once every watched id fits in a request and the server gives as
    -- many answers as the tries of one call for each watched id, and uses up no more than those.
    pub modify_ack_deadlines-Ends :
        (dl grace : ℕ) (s : Session fl)
        → s.it.policies ≡ p
        → FitIds s.it.keep_alive_ack_ids
        → tries fl p * length s.it.keep_alive_ack_ids ≤ replies_left fl s
        → EndsUsing p s (length s.it.keep_alive_ack_ids) (modify_ack_deadlines fl dl grace s)
    unfolding modify_ack_deadlines
    modify_ack_deadlines-Ends dl grace s same fits room =
        modify_watched-Ends dl grace s.it.keep_alive_ack_ids s same fits room
