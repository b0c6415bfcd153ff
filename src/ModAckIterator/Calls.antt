-- ===== src/ModAckIterator/Calls.antt =====
-- One call of the service by pubsuber/src/ModAckIterator.cpp: what it sends, and that it ends.
use pubsuber.Base.{ℕ, ◌+◌, ◌≤◌, ◌≡◌, refl, sym, none, ap, ◌∙◌, List, Bytes, length, arith}
use pubsuber.Containers.{lookup}
use pubsuber.Double.{Float}
use pubsuber.Io.{
  StatusCode, Exception, Request, modify_ack_deadline, acknowledge, World, Outcome, returned, threw,
  blocked, terminated, Act, ◌>>=◌, Holds, Ends, After, Requested, sends,
}
use pubsuber.Io.Rules.{Holds-and, Holds-mono, Holds-bind}
use pubsuber.Retriable.{Policies, CallResult, make_call}
use pubsuber.Retriable.Attempts.{IsLimited, Answered, GaveUp, make_call-Ends}
use pubsuber.Retriable.Spends.{Grown, make_call-Grown}
use pubsuber.ModAckIterator.State.{ModAckIterator}
use pubsuber.ModAckIterator.Requests.{
  Session, call_service, check_status, extend_ack_deadlines, ack_messages,
}

module _ (fl : Float) where
  -- All of an iterator but the times in `_keepAliveAckIDs` is as it was: the same ids are watched.
  pub record Same (s s' : Session fl) : Type 0 where
    pub same_name : s'.it.subscription_name ≡ s.it.subscription_name
    pub same_grace : s'.it.grace_period ≡ s.it.grace_period
    pub same_dist : s'.it.ack_dist ≡ s.it.ack_dist
    pub same_executor : s'.it.has_executor ≡ s.it.has_executor
    pub same_policies : s'.it.policies ≡ s.it.policies
    pub same_input : s'.it.input_ack_ids ≡ s.it.input_ack_ids
    pub same_acks : s'.it.pending_ack_ids ≡ s.it.pending_ack_ids
    pub same_nacks : s'.it.pending_nack_ids ≡ s.it.pending_nack_ids
    pub none_new :
        (j : Bytes)
        → lookup j s.it.keep_alive_ack_ids ≡ none
        → lookup j s'.it.keep_alive_ack_ids ≡ none
    pub none_lost :
        (j : Bytes)
        → lookup j s'.it.keep_alive_ack_ids ≡ none
        → lookup j s.it.keep_alive_ack_ids ≡ none
    pub same_count : length s'.it.keep_alive_ack_ids ≡ length s.it.keep_alive_ack_ids

  pub Same-trans : {s t u : Session fl} → Same s t → Same t u → Same s u
  Same-trans a b = record {
    same_name = b.same_name ∙ a.same_name;
    same_grace = b.same_grace ∙ a.same_grace;
    same_dist = b.same_dist ∙ a.same_dist;
    same_executor = b.same_executor ∙ a.same_executor;
    same_policies = b.same_policies ∙ a.same_policies;
    same_input = b.same_input ∙ a.same_input;
    same_acks = b.same_acks ∙ a.same_acks;
    same_nacks = b.same_nacks ∙ a.same_nacks;
    none_new = λ j e. b.none_new j (a.none_new j e);
    none_lost = λ j e. a.none_lost j (b.none_lost j e);
    same_count = b.same_count ∙ a.same_count;
  }

  -- The number of answers that a call may use up.
  abbrev pub tries : Policies fl → ℕ
  tries p = p.count_policy.count + 1

  abbrev pub replies_left : Session fl → ℕ
  replies_left s = length s.world.replies

  -- A call of `make_call` under the iterator's policies leaves the iterator as it is.
  lift_world :
      (P : CallResult → World → Type 0) (Q : Exception → World → Type 0) (B : Type 0)
      (request : Request) (s : Session fl)
      → Holds P Q B (make_call fl request s.it.policies s.world)
      → Holds
          (λ r s'. P r s'.world × (s'.it ≡ s.it))
          (λ e s'. Q e s'.world × (s'.it ≡ s.it))
          B
          (call_service fl request s)
  unfolding call_service
  lift_world P Q B request s h = go (make_call fl request s.it.policies s.world) h
    where
      go :
          (o : Outcome World CallResult)
          → Holds P Q B o
          → Holds
              (λ r s'. P r s'.world × (s'.it ≡ s.it))
              (λ e s'. Q e s'.world × (s'.it ≡ s.it))
              B
              (elim o [
                | returned r w ↦ returned r (record s { world = w })
                | threw e w ↦ threw e (record s { world = w })
                | blocked ↦ blocked
                | terminated ↦ terminated
              ])
      go (returned r w) h = (h, refl)
      go (threw e w) h = (h, refl)
      go blocked h = h
      go terminated h = h

  abbrev pub SentBy : Request → Session fl → Session fl → Type 0
  SentBy q s s' = Grown (λ r. q ≡ r) s.world s'.world

  call_service-After :
      (q : Request) (s : Session fl)
      → After
          (λ r s'. (SentBy q s s' × Requested q s'.world.log) × (s'.it ≡ s.it))
          (λ e s'. SentBy q s s' × (s'.it ≡ s.it))
          (call_service fl q s)
  call_service-After q s =
      lift_world (λ r w. Grown (λ r. q ≡ r) s.world w × Requested q w.log)
        (λ e w. Grown (λ r. q ≡ r) s.world w) Unit q s (make_call-Grown fl q s.it.policies s.world)

  call_service-Ends :
      (q : Request) (s : Session fl)
      → IsLimited s.it.policies.count_policy
      → tries s.it.policies ≤ replies_left s
      → Ends
          (λ r s'. (replies_left s ≤ replies_left s' + tries s.it.policies) × (s'.it ≡ s.it))
          (λ e s'. Unit {0} × (s'.it ≡ s.it))
          (call_service fl q s)
  call_service-Ends q s lim enough =
      lift_world (λ r w. replies_left s ≤ length w.replies + tries s.it.policies) (λ e w. Unit) ⊥ q
        s
        (Holds-mono
          (λ r w.
            Answered fl q s.it.policies (sends s.world.log) r w
            × (Grown (λ r. q ≡ r) s.world w × Requested q w.log))
          _
          (λ e w. GaveUp fl q s.it.policies (sends s.world.log) e w × Grown (λ r. q ≡ r) s.world w)
          (λ e w. Unit) ⊥ (make_call fl q s.it.policies s.world)
          (Holds-and _ _ _ _ _ Unit (make_call fl q s.it.policies s.world)
            (make_call-Ends fl q s.it.policies s.world lim enough)
            (make_call-Grown fl q s.it.policies s.world))
          (λ r w h. omega (arith, h.1.0.spent, h.0.0)) (λ e w h. tt))

  checked :
      (P : CallResult → Session fl → Type 0) (P' : Unit {0} → Session fl → Type 0)
      (Q : Exception → Session fl → Type 0) (B : Type 0)
      (on_ok : CallResult → Act (Session fl) (Unit {0})) (error : CallResult → Exception)
      (q : Request) (s : Session fl)
      → Holds P Q B (call_service fl q s)
      → ((r : CallResult) (s' : Session fl) → P r s' → Holds P' Q B (on_ok r s'))
      → ((r : CallResult) (s' : Session fl) → P r s' → Q (error r) s')
      → Holds P' Q B
          ((call_service fl q >>= λ r. check_status fl r.status.error_code (on_ok r) (error r)) s)
  checked P P' Q B on_ok error q s h f g =
      Holds-bind P P' Q B (call_service fl q)
        (λ r. check_status fl r.status.error_code (on_ok r) (error r)) s h
        (λ r s' p. by_code r s' p r.status.error_code)
    where
      by_code :
          (r : CallResult) (s' : Session fl)
          → P r s'
          → (code : StatusCode) → Holds P' Q B (check_status fl code (on_ok r) (error r) s')
      by_code r s' p StatusCode.ok = f r s' p
      by_code r s' p StatusCode.not_found = g r s' p
      by_code r s' p StatusCode.deadline_exceeded = g r s' p
      by_code r s' p StatusCode.unavailable = g r s' p
      by_code r s' p (StatusCode.other n) = g r s' p

  pub Same-of-eq : (s s' : Session fl) → s'.it ≡ s.it → Same s s'
  Same-of-eq s s' e = record {
    same_name = ap (λ it. it.subscription_name) e;
    same_grace = ap (λ it. it.grace_period) e;
    same_dist = ap (λ it. it.ack_dist) e;
    same_executor = ap (λ it. it.has_executor) e;
    same_policies = ap (λ it. it.policies) e;
    same_input = ap (λ it. it.input_ack_ids) e;
    same_acks = ap (λ it. it.pending_ack_ids) e;
    same_nacks = ap (λ it. it.pending_nack_ids) e;
    none_new = λ j n. ap (λ it. lookup j it.keep_alive_ack_ids) e ∙ n;
    none_lost = λ j n. sym (ap (λ it. lookup j it.keep_alive_ack_ids) e) ∙ n;
    same_count = ap (λ it. length it.keep_alive_ack_ids) e;
  }

  -- A call that returns sent `q`; one that throws sent nothing else. Neither touches more of the
  -- iterator than `_keepAliveAckIDs`.
  abbrev pub SendsOnly :
      Request
      → Session fl
      → (Session fl → Session fl → Type 0)
      → Act (Session fl) (Unit {0})
      → Type 0
  SendsOnly q s R m =
      After (λ u s'. (SentBy q s s' × Requested q s'.world.log) × R s s')
        (λ e s'. SentBy q s s' × R s s') (m s)

  -- A call ends, and uses up no more answers than its tries.
  abbrev pub EndsSoon : Session fl → Act (Session fl) (Unit {0}) → Type 0
  EndsSoon s m =
      Ends
        (λ u s'.
          (replies_left s ≤ replies_left s' + tries s.it.policies)
          × (s'.it.policies ≡ s.it.policies))
        (λ e s'. Unit {0}) (m s)

  abbrev Answer : Request → Session fl → CallResult → Session fl → Type 0
  Answer q s r s' = (SentBy q s s' × Requested q s'.world.log) × (s'.it ≡ s.it)

  call_service-Same :
      (q : Request) (s : Session fl)
      → After (Answer q s) (λ e s'. SentBy q s s' × Same s s') (call_service fl q s)
  call_service-Same q s =
      Holds-mono (Answer q s) (Answer q s) (λ e s'. SentBy q s s' × (s'.it ≡ s.it))
        (λ e s'. SentBy q s s' × Same s s') Unit (call_service fl q s) (call_service-After q s)
        (λ r s' h. h) (λ e s' h. (h.0, Same-of-eq s s' h.1))

  pub ack_messages-SendsOnly :
      (ids : List Bytes) (s : Session fl)
      → SendsOnly (acknowledge s.it.subscription_name ids) s Same (ack_messages fl ids)
  unfolding ack_messages
  ack_messages-SendsOnly ids s =
      let q : Request = acknowledge s.it.subscription_name ids in
      checked (Answer q s) (λ u s'. (SentBy q s s' × Requested q s'.world.log) × Same s s')
        (λ e s'. SentBy q s s' × Same s s') Unit _ _ q s (call_service-Same q s)
        (λ r s' p. (p.0, Same-of-eq s s' p.1)) (λ r s' p. (p.0.0, Same-of-eq s s' p.1))

  abbrev Room : Session fl → Session fl → Type 0
  Room s s' =
      (replies_left s ≤ replies_left s' + tries s.it.policies) × (s'.it.policies ≡ s.it.policies)

  call_service-Room :
      (q : Request) (s : Session fl)
      → IsLimited s.it.policies.count_policy
      → tries s.it.policies ≤ replies_left s
      → Ends
          (λ r s'. (replies_left s ≤ replies_left s' + tries s.it.policies) × (s'.it ≡ s.it))
          (λ e s'. Unit {0})
          (call_service fl q s)
  call_service-Room q s lim enough =
      Holds-mono _
        (λ r s'. (replies_left s ≤ replies_left s' + tries s.it.policies) × (s'.it ≡ s.it))
        (λ e s'. Unit {0} × (s'.it ≡ s.it)) (λ e s'. Unit {0}) ⊥ (call_service fl q s)
        (call_service-Ends q s lim enough) (λ r s' h. h) (λ e s' h. tt)

  pub ack_messages-EndsSoon :
      (ids : List Bytes) (s : Session fl)
      → IsLimited s.it.policies.count_policy
      → tries s.it.policies ≤ replies_left s
      → EndsSoon s (ack_messages fl ids)
  unfolding ack_messages
  ack_messages-EndsSoon ids s lim enough =
      checked (λ r s'. (replies_left s ≤ replies_left s' + tries s.it.policies) × (s'.it ≡ s.it))
        (λ u s'. Room s s') (λ e s'. Unit {0}) ⊥ _ _ (acknowledge s.it.subscription_name ids) s
        (call_service-Room (acknowledge s.it.subscription_name ids) s lim enough)
        (λ r s' p. (p.0, ap (λ it. it.policies) p.1)) (λ r s' p. tt)

  -- What the callback of a deadline extension may do.
  abbrev pub IsCalm : (ℕ → ModAckIterator fl → ModAckIterator fl) → Type 0
  IsCalm f = (n : ℕ) (s : Session fl) → Same s (record s { it = f n s.it })

  pub extend-SendsOnly :
      (ids : List Bytes) (dl : ℕ) (f : ℕ → ModAckIterator fl → ModAckIterator fl) (s : Session fl)
      → IsCalm f
      → SendsOnly
          (modify_ack_deadline s.it.subscription_name ids dl)
          s
          Same
          (extend_ack_deadlines fl ids dl f)
  unfolding extend_ack_deadlines
  extend-SendsOnly ids dl f s calm =
      let q : Request = modify_ack_deadline s.it.subscription_name ids dl in
      checked (Answer q s) (λ u s'. (SentBy q s s' × Requested q s'.world.log) × Same s s')
        (λ e s'. SentBy q s s' × Same s s') Unit _ _ q s (call_service-Same q s)
        (λ r s' p. (p.0, Same-trans (Same-of-eq s s' p.1) (calm _ s')))
        (λ r s' p. (p.0.0, Same-of-eq s s' p.1))

  pub extend-EndsSoon :
      (ids : List Bytes) (dl : ℕ) (f : ℕ → ModAckIterator fl → ModAckIterator fl) (s : Session fl)
      → IsCalm f
      → IsLimited s.it.policies.count_policy
      → tries s.it.policies ≤ replies_left s
      → EndsSoon s (extend_ack_deadlines fl ids dl f)
  unfolding extend_ack_deadlines
  extend-EndsSoon ids dl f s calm lim enough =
      let q : Request = modify_ack_deadline s.it.subscription_name ids dl in
      checked (λ r s'. (replies_left s ≤ replies_left s' + tries s.it.policies) × (s'.it ≡ s.it))
        (λ u s'. Room s s') (λ e s'. Unit {0}) ⊥ _ _ q s (call_service-Room q s lim enough)
        (λ r s' p. (p.0, (calm _ s').same_policies ∙ ap (λ it. it.policies) p.1)) (λ r s' p. tt)
