-- ===== src/ModAckIterator/Local.antt =====
-- Which part of the iterator the calls of pubsuber/src/ModAckIterator.cpp to the service read: nothing
-- that the users' threads write.
use pubsuber.Base.{ℕ, zero, suc, ◌≡◌, ◌∙◌, refl, ap, List, [], ◌∷◌, Bytes}
use pubsuber.Containers.{KeySet}
use pubsuber.Double.{Float}
use pubsuber.Io.{
  StatusCode, Exception, Request, modify_ack_deadline, acknowledge, World, Outcome, returned, threw,
  blocked, terminated, Act, ◌>>=◌, pure,
}
use pubsuber.Retriable.{CallResult, make_call}
use pubsuber.Algorithms.{PackSet, split_request_ids}
use pubsuber.ModAckIterator.State.{ModAckIterator}
use pubsuber.ModAckIterator.Requests.{
  Session, max_payload, call_service, check_status, extend_ack_deadlines, ack_messages, drain,
  nack_batch, extend_packs, update_next_acks,
}
use pubsuber.ModAckIterator.Users.{Common, with_common}

-- The outcome with the state changed.
abbrev pub on_state : {S A : Type 0} → (S → S) → Outcome S A → Outcome S A
on_state f (returned a s) = returned a (f s)
on_state f (threw e s) = threw e (f s)
on_state f blocked = blocked
on_state f terminated = terminated

module _ (fl : Float) where
  abbrev pub shared_as : Common → Session fl → Session fl
  shared_as c s = record s { it = with_common fl c s.it }

  -- The action does the same whatever the common part holds, and leaves it as it is.
  abbrev pub IsLocal : {A : Type 0} → Act (Session fl) A → Type 0
  IsLocal m = (c : Common) (s : Session fl) → m (shared_as c s) ≡ on_state (shared_as c) (m s)

  pub bind-IsLocal :
      {A B : Type 0} (m : Act (Session fl) A) (k : A → Act (Session fl) B)
      → IsLocal m
      → ((a : A) → IsLocal (k a))
      → IsLocal (m >>= k)
  bind-IsLocal {A} {B} m k h g c s = ap after (h c s) ∙ go (m s)
    where
      after : Outcome (Session fl) A → Outcome (Session fl) B
      after o = elim o [
        | returned a s' ↦ k a s'
        | threw e s' ↦ threw e s'
        | blocked ↦ blocked
        | terminated ↦ terminated
      ]

      go :
          (o : Outcome (Session fl) A)
          → after (on_state (shared_as c) o) ≡ on_state (shared_as c) (after o)
      go (returned a s') = g a c s'
      go (threw e s') = refl
      go blocked = refl
      go terminated = refl

  call_service-IsLocal : (q : Request) → IsLocal (call_service fl q)
  unfolding call_service
  call_service-IsLocal q c s = go (make_call fl q s.it.policies s.world)
    where
      lifted : Session fl → Outcome World CallResult → Outcome (Session fl) CallResult
      lifted s o = elim o [
        | returned r w ↦ returned r (record s { world = w })
        | threw e w ↦ threw e (record s { world = w })
        | blocked ↦ blocked
        | terminated ↦ terminated
      ]

      go :
          (o : Outcome World CallResult)
          → lifted (shared_as c s) o ≡ on_state (shared_as c) (lifted s o)
      go (returned r w) = refl
      go (threw e w) = refl
      go blocked = refl
      go terminated = refl

  check_status-IsLocal :
      (code : StatusCode) (on_ok : Act (Session fl) (Unit {0})) (error : Exception)
      → IsLocal on_ok
      → IsLocal (check_status fl code on_ok error)
  check_status-IsLocal StatusCode.ok on_ok error h c s = h c s
  check_status-IsLocal StatusCode.not_found on_ok error h c s = refl
  check_status-IsLocal StatusCode.deadline_exceeded on_ok error h c s = refl
  check_status-IsLocal StatusCode.unavailable on_ok error h c s = refl
  check_status-IsLocal (StatusCode.other n) on_ok error h c s = refl

  pub ack_messages-IsLocal : (ids : List Bytes) → IsLocal (ack_messages fl ids)
  unfolding ack_messages
  ack_messages-IsLocal ids c s =
      bind-IsLocal (call_service fl (acknowledge s.it.subscription_name ids)) _
        (call_service-IsLocal (acknowledge s.it.subscription_name ids))
        (λ r. check_status-IsLocal r.status.error_code (pure tt) _ (λ c' s'. refl)) c s

  -- The callback of an extension touches nothing of the common part.
  abbrev IsFramed : (ℕ → ModAckIterator fl → ModAckIterator fl) → Type 0
  IsFramed f =
      (n : ℕ) (c : Common) (it : ModAckIterator fl)
      → f n (with_common fl c it) ≡ with_common fl c (f n it)

  extend-IsLocal :
      (ids : List Bytes) (dl : ℕ) (f : ℕ → ModAckIterator fl → ModAckIterator fl)
      → IsFramed f
      → IsLocal (extend_ack_deadlines fl ids dl f)
  unfolding extend_ack_deadlines
  extend-IsLocal ids dl f framed c s =
      let q : Request = modify_ack_deadline s.it.subscription_name ids dl in
      bind-IsLocal (call_service fl q) _ (call_service-IsLocal q)
        (λ r.
          check_status-IsLocal r.status.error_code _ _
            (λ c' s'. ap (λ it. returned tt (record s' { it = it })) (framed _ c' s'.it)))
        c s

  pub nack_batch-IsLocal : (ids : KeySet) → IsLocal (nack_batch fl ids)
  nack_batch-IsLocal ids = extend-IsLocal _ 0 (λ next it. it) (λ n c it. refl)

  pub extend_packs-IsLocal : (dl : ℕ) (packs : PackSet) → IsLocal (extend_packs fl dl packs)
  unfolding extend_packs
  extend_packs-IsLocal dl packs =
      extend-IsLocal _ dl
        (λ next it. record it {
          keep_alive_ack_ids = update_next_acks fl packs next it.keep_alive_ack_ids;
        })
        (λ n c it. refl)

  pub drain-IsLocal :
      {A : Type 0} (id : A → Bytes) (handle : List A → Act (Session fl) (Unit {0}))
      → ((batch : List A) → IsLocal (handle batch))
      → (rounds : ℕ) (ids : List A) → IsLocal (drain fl id handle rounds ids)
  unfolding drain
  drain-IsLocal id handle h rounds [] c s = refl
  drain-IsLocal id handle h zero (x ∷ ids) c s = refl
  drain-IsLocal id handle h (suc rounds) (x ∷ ids) c s =
      let (rest, to_send) = split_request_ids id (x ∷ ids) max_payload in
      bind-IsLocal (handle to_send) (λ u. drain fl id handle rounds rest) (h to_send)
        (λ u. drain-IsLocal id handle h rounds rest) c s
