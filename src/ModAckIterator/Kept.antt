-- ===== src/ModAckIterator/Kept.antt =====
-- What the users' threads decide while `ProcessModAcks` of pubsuber/src/ModAckIterator.cpp runs.
use pubsuber.Base.{
  ℕ, ◌≡◌, ◌∙◌, refl, sym, ap, subst, List, [], ◌∷◌, ◌++◌, Bytes, Bytes_discrete, true, Option, none,
  some, ite,
}
use mathlib.Core.List.{append_assoc}
use pubsuber.Containers.{Map, contains}
use pubsuber.Double.{Float}
use pubsuber.Io.{Exception, Outcome, returned, threw, blocked, terminated, Act, ◌>>◌, pure, After}
use pubsuber.Io.Rules.{Holds-bind, Holds-mono}
use pubsuber.ModAckIterator.State.{
  AckWatchDescriptor, ModAckIterator, add_deadline_watcher, ack_deadline,
}
use pubsuber.ModAckIterator.Requests.{Session, take_pending, modify_watched}
use pubsuber.ModAckIterator.Pending.{watched, settled}
use pubsuber.ModAckIterator.Decisions.{Decisions, pending, Change-Follows}
use pubsuber.ModAckIterator.Users.{
  UserCall, watch, settle, user_call, user_calls, user_calls-split, common,
}
use pubsuber.ModAckIterator.Local.{on_state, shared_as, IsLocal}
use pubsuber.ModAckIterator.Concurrent.{
  Concurrent, others, sends_among, modify_watched_among, or_terminate_among, modify_among,
  extends_among, process_among,
}
use pubsuber.ModAckIterator.Refinement.{all_calls, Agrees, Refines, others-Refines}
use pubsuber.ModAckIterator.Interleaved.{
  sends, sends-Refines, sends-IsLocal, modify_watched-Refines, modify_watched-IsLocal,
}

-- What a call decides.
abbrev pub decide : UserCall → Decisions → Decisions
decide (watch ack_id next_ack) m k = m k
decide (settle ack_id rt now action) m k = ite (Bytes_discrete ack_id k) (some action) (m k)

abbrev pub decide_all : List UserCall → Decisions → Decisions
decide_all [] m = m
decide_all (c ∷ cs) m = decide_all cs (decide c m)

decide_all_cong :
    (cs : List UserCall) (m m' : Decisions)
    → ((k : Bytes) → m k ≡ m' k)
    → (k : Bytes) → decide_all cs m k ≡ decide_all cs m' k
decide_all_cong [] m m' h k = h k
decide_all_cong (watch ack_id next_ack ∷ cs) m m' h k = decide_all_cong cs _ _ h k
decide_all_cong (settle ack_id rt now action ∷ cs) m m' h k =
    decide_all_cong cs (decide (settle ack_id rt now action) m)
      (decide (settle ack_id rt now action) m')
      (λ j. ap (ite (Bytes_discrete ack_id j) (some action)) (h j)) k

decide_all-append :
    (cs ds : List UserCall) (m : Decisions) (k : Bytes)
    → decide_all (cs ++ ds) m k ≡ decide_all ds (decide_all cs m) k
decide_all-append [] ds m k = refl
decide_all-append (c ∷ cs) ds m k = decide_all-append cs ds (decide c m) k

module _ (fl : Float) where
  -- The executor lives still, and the calls decided what the second iterator has pending.
  abbrev Decides : List UserCall → ModAckIterator fl → ModAckIterator fl → Type 0
  Decides cs it it' =
      (it'.has_executor ≡ true) × ((k : Bytes) → pending fl it' k ≡ decide_all cs (pending fl it) k)

  user_call-Decides :
      (c : UserCall) (it it' : ModAckIterator fl)
      → it.has_executor ≡ true
      → user_call fl c it ≡ some it'
      → Decides (c ∷ []) it it'
  unfolding user_call
  user_call-Decides (watch ack_id next_ack) it it' alive e =
      let same : add_deadline_watcher fl ack_id next_ack it ≡ it' = cc in
      subst (Decides (watch ack_id next_ack ∷ []) it) same
        (Change-Follows fl it _ (watched ack_id next_ack it) alive)
  user_call-Decides (settle ack_id rt now action) it it' alive e =
      Change-Follows fl it it' (settled ack_id rt now action it it' e) alive

  user_calls-Decides :
      (cs : List UserCall) (it it' : ModAckIterator fl)
      → it.has_executor ≡ true
      → user_calls fl cs it ≡ some it'
      → Decides cs it it'
  unfolding user_calls
  user_calls-Decides [] it it' alive e =
      let same : it ≡ it' = cc in subst (Decides [] it) same (alive, λ k. refl)
  user_calls-Decides (c ∷ cs) it it' alive e =
      let (it₁, one, more) = user_calls-split fl c cs it it' e in
      let (alive₁, first) = user_call-Decides c it it₁ alive one in
      let (alive', later) = user_calls-Decides cs it₁ it' alive₁ more in
      (
        alive',
        λ k. later k ∙ decide_all_cong cs (pending fl it₁) (decide c (pending fl it)) first k,
      )

  -- From `c` to `c'` the users' threads made some calls, which decided what is pending.
  abbrev pub KeepsCalls : Concurrent fl → Concurrent fl → Type 0
  KeepsCalls c c' =
      (used : List UserCall) × (used ++ all_calls c'.schedule ≡ all_calls c.schedule)
      × (c'.session.it.has_executor ≡ true)
      × ((k : Bytes) → pending fl c'.session.it k ≡ decide_all used (pending fl c.session.it) k)

  KeepsCalls-trans :
      (c c₁ c₂ : Concurrent fl) → KeepsCalls c c₁ → KeepsCalls c₁ c₂ → KeepsCalls c c₂
  KeepsCalls-trans c c₁ c₂ (one, order₁, alive₁, first) (two, order₂, alive₂, second) = (
    one ++ two,
    append_assoc one two (all_calls c₂.schedule) ∙ ap (λ cs. one ++ cs) order₂ ∙ order₁,
    alive₂,
    λ k.
        second k
        ∙ decide_all_cong two (pending fl c₁.session.it) (decide_all one (pending fl c.session.it))
            first k
        ∙ sym (decide_all-append one two (pending fl c.session.it) k),
  )

  -- A run of an action keeps the calls made during it, if it starts while the executor lives.
  abbrev Keeps : {A : Type 0} → Concurrent fl → Outcome (Concurrent fl) A → Type 0
  Keeps c = After (λ a c'. KeepsCalls c c') (λ e c'. KeepsCalls c c')

  -- A local action alone leaves the common part.
  Refines-Keeps :
      {A : Type 0} (m : Act (Session fl) A) (m' : Act (Concurrent fl) A) (c : Concurrent fl)
      → Refines fl m m'
      → IsLocal fl m
      → c.session.it.has_executor ≡ true
      → Keeps c (m' c)
  Refines-Keeps {A} m m' c h local alive =
      go (m c.session) (m' c) (local (common fl c.session.it) c.session) (h c)
    where
      ended :
          (s' : Session fl) (c' : Concurrent fl) (used : List UserCall)
          → s' ≡ shared_as fl (common fl c.session.it) s'
          → used ++ all_calls c'.schedule ≡ all_calls c.schedule
          → user_calls fl used s'.it ≡ some c'.session.it
          → KeepsCalls c c'
      ended s' c' used same order calls =
          let alive' : s'.it.has_executor ≡ true = ap (λ s. s.it.has_executor) same ∙ alive in
          let (still, decided) = user_calls-Decides used s'.it c'.session.it alive' calls in
          (
            used,
            order,
            still,
            λ k.
                decided k
                ∙ decide_all_cong used (pending fl s'.it) (pending fl c.session.it)
                    (λ j. ap (λ s. pending fl s.it j) same) k,
          )

      go :
          (o : Outcome (Session fl) A) (p : Outcome (Concurrent fl) A)
          → o ≡ on_state (shared_as fl (common fl c.session.it)) o
          → Agrees fl c o p
          → Keeps c p
      go o (returned a c') kept (s', e, r) =
          let at : returned a s'
              ≡ on_state (shared_as fl (common fl c.session.it)) (returned a s') =
            subst (λ o. o ≡ on_state (shared_as fl (common fl c.session.it)) o) e kept in
          let same : s' ≡ shared_as fl (common fl c.session.it) s' = cc in
          ended s' c' r.used same r.in_order r.calls_last
      go o (threw x c') kept (s', e, r) =
          let at : failed x s' ≡ on_state (shared_as fl (common fl c.session.it)) (failed x s') =
            subst (λ o. o ≡ on_state (shared_as fl (common fl c.session.it)) o) e kept in
          let same : s' ≡ shared_as fl (common fl c.session.it) s' = cc in
          ended s' c' r.used same r.in_order r.calls_last
        where
          failed : Exception → Session fl → Outcome (Session fl) A
          failed x s = threw x s
      go o blocked kept h = tt
      go o terminated kept h = tt

  others-Keeps : (c : Concurrent fl) → c.session.it.has_executor ≡ true → Keeps c (others fl c)
  others-Keeps c alive =
      Refines-Keeps (pure tt) (others fl) c (others-Refines fl) (λ c s. refl) alive

  extends-Keeps :
      (c : Concurrent fl) → c.session.it.has_executor ≡ true → Keeps c (extends_among fl c)
  unfolding extends_among modify_among
  extends-Keeps c alive = go (ack_deadline fl c.session.it)
    where
      grace : ℕ
      grace = c.session.it.grace_period

      ids : Map AckWatchDescriptor
      ids = c.session.it.keep_alive_ack_ids

      go :
          (o : Option ℕ)
          → Keeps c (or_terminate_among fl o (λ dl. modify_among fl dl c.session.it.grace_period) c)
      go none = tt
      go (some dl) =
          Refines-Keeps (modify_watched fl ids dl grace) (modify_watched_among fl ids dl grace) c
            (modify_watched-Refines fl dl grace ids) (modify_watched-IsLocal fl dl grace ids) alive

  bind-Keeps :
      {A : Type 0} (m : Act (Concurrent fl) (Unit {0})) (k : Act (Concurrent fl) A)
      (c : Concurrent fl)
      → Keeps c (m c)
      → ((c' : Concurrent fl) → c'.session.it.has_executor ≡ true → Keeps c' (k c'))
      → Keeps c ((m >> k) c)
  bind-Keeps m k c h g =
      Holds-bind (λ u c'. KeepsCalls c c') (λ a c'. KeepsCalls c c') (λ e c'. KeepsCalls c c')
        (Unit {0}) m (λ u. k) c h
        (λ u c' one.
          Holds-mono (λ a c''. KeepsCalls c' c'') (λ a c''. KeepsCalls c c'')
            (λ e c''. KeepsCalls c' c'') (λ e c''. KeepsCalls c c'') (Unit {0}) (k c') (g c' one.2)
            (λ a c'' two. KeepsCalls-trans c c' c'' one two)
            (λ e c'' two. KeepsCalls-trans c c' c'' one two))

  taken-none :
      (it : ModAckIterator fl)
      → it.has_executor ≡ true
      → ((take_pending fl it).1.has_executor ≡ true)
        × ((k : Bytes) → pending fl (take_pending fl it).1 k ≡ none)
  unfolding take_pending contains
  taken-none it alive = rw alive (refl, λ k. refl)

  -- The users' threads made some calls from `c` to `c'`, and exactly what those decided is pending.
  abbrev pub OnlyCalls : Concurrent fl → Concurrent fl → Type 0
  OnlyCalls c c' =
      (used : List UserCall) × (used ++ all_calls c'.schedule ≡ all_calls c.schedule)
      × ((k : Bytes) → pending fl c'.session.it k ≡ decide_all used (λ j. none) k)

  -- The executor lives. However the users' threads call `Done` and `AddDeadlineWatcher` while
  -- `ProcessModAcks` runs, after it, also where it throws, what those calls decided is pending and
  -- nothing else: no decision is lost, and none of those that it took is left.
  pub process_among-Keeps :
      (c : Concurrent fl)
      → c.session.it.has_executor ≡ true
      → After (λ ms c'. OnlyCalls c c') (λ e c'. OnlyCalls c c') (process_among fl c)
  unfolding process_among
  process_among-Keeps c alive =
      let ((acks, nacks), it) = take_pending fl c.session.it in
      let (alive₀, none₀) = taken-none c.session.it alive in
      let c₀ : Concurrent fl = record c { session = record c.session { it = it } } in
      let only : (c' : Concurrent fl) → KeepsCalls c₀ c' → OnlyCalls c c' =
        λ c' h. (h.0, h.1, λ k. h.3 k ∙ decide_all_cong h.0 (pending fl it) (λ j. none) none₀ k) in
      Holds-mono (λ ms c'. KeepsCalls c₀ c') _ (λ e c'. KeepsCalls c₀ c') _ (Unit {0}) _
        (bind-Keeps (sends_among fl acks nacks) (others fl >> extends_among fl) c₀
          (Refines-Keeps (sends fl acks nacks) (sends_among fl acks nacks) c₀
            (sends-Refines fl acks nacks) (sends-IsLocal fl acks nacks) alive₀)
          (λ c' alive'.
            bind-Keeps (others fl) (extends_among fl) c' (others-Keeps c' alive') extends-Keeps))
        (λ ms c' h. only c' h) (λ e c' h. only c' h)
