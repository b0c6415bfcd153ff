-- ===== src/ModAckIterator/Reorder.antt =====
-- `ProcessModAcks` of pubsuber/src/ModAckIterator.cpp as a whole, among the calls of the users' threads.
use pubsuber.Base.{ℕ, ◌≡◌, ◌∙◌, refl, sym, ap, subst, List, [], ◌++◌, some}
use mathlib.Core.List.{append_assoc}
use pubsuber.Containers.{KeySet}
use pubsuber.Double.{Float}
use pubsuber.Io.{Outcome, returned, threw, blocked, terminated, Act, ◌>>◌}
use pubsuber.Io.Rules.{bind_assoc}
use pubsuber.ModAckIterator.Requests.{
  Session, send_acks, send_nacks, take_pending, unwatch, process_mod_acks,
}
use pubsuber.ModAckIterator.Users.{UserCall, user_calls, user_calls-append}
use pubsuber.ModAckIterator.Concurrent.{
  Concurrent, users, after_calls, others, sends_among, extends_among, process_among,
}
use pubsuber.ModAckIterator.Refinement.{all_calls, Reached, Agrees, others-Refines}
use pubsuber.ModAckIterator.Interleaved.{sends, extends, sends-Refines, extends-Refines}

module _ (fl : Float) where
  -- `ProcessModAcks` with calls of the users' threads at one point, before the histogram is read.
  unfoldable pub process_with : List UserCall → Act (Session fl) ℕ
  unfolding sends extends users take_pending
  process_with cs s =
      let ((pending_acks, pending_nacks), it) = take_pending fl s.it in
      (sends fl pending_acks pending_nacks >> (users fl cs >> extends fl)) (record s { it = it })

  process_with-nil : (s : Session fl) → process_with [] s ≡ process_mod_acks fl s
  unfolding process_with process_mod_acks sends extends users user_calls
  process_with-nil s =
      let ((acks, nacks), it) = take_pending fl s.it in
      bind_assoc (send_acks fl acks) (λ u. unwatch fl nacks >> send_nacks fl nacks)
        (λ u. extends fl) _

  -- The calls that are left of `c`, those of `first` apart, come last.
  pub record Last (first : List UserCall) (c : Concurrent fl) (t : Session fl) (c' : Concurrent fl)
      : Type 0 where
    pub later : List UserCall
    pub in_order : first ++ (later ++ all_calls c'.schedule) ≡ all_calls c.schedule
    pub calls_last : user_calls fl later t.it ≡ some c'.session.it
    pub same_world : c'.session.world ≡ t.world

  -- The outcome is one of a run in which the users' threads make some calls before the histogram is
  -- read, and the rest of their calls at the end.
  abbrev pub Reorders : Concurrent fl → Outcome (Concurrent fl) ℕ → Type 0
  Reorders c (returned ms c') =
      (first : List UserCall) × (t : Session fl) × (process_with first c.session ≡ returned ms t)
      × Last first c t c'
  Reorders c (threw e c') =
      (first : List UserCall) × (t : Session fl) × (process_with first c.session ≡ threw e t)
      × Last first c t c'
  Reorders c blocked = (first : List UserCall) × (process_with first c.session ≡ blocked)
  Reorders c terminated = Unit {0}

  abbrev then_with : List UserCall → Outcome (Session fl) (Unit {0}) → Outcome (Session fl) ℕ
  then_with first o = elim o [
    | returned u s ↦ (users fl first >> extends fl) s
    | threw e s ↦ threw e s
    | blocked ↦ blocked
    | terminated ↦ terminated
  ]

  abbrev then_extend : Outcome (Session fl) (Unit {0}) → Outcome (Session fl) ℕ
  then_extend o = elim o [
    | returned u s ↦ extends fl s
    | threw e s ↦ threw e s
    | blocked ↦ blocked
    | terminated ↦ terminated
  ]

  module _ (c : Concurrent fl) where
    abbrev acks : KeySet
    acks = (take_pending fl c.session.it).0.0

    abbrev nacks : KeySet
    nacks = (take_pending fl c.session.it).0.1

    abbrev s₀ : Session fl
    s₀ = record c.session { it = (take_pending fl c.session.it).1 }

    abbrev c₀ : Concurrent fl
    c₀ = record c { session = s₀ }

    process_with_lem :
        (first : List UserCall)
        → process_with first c.session ≡ then_with first (sends fl acks nacks s₀)
    unfolding process_with
    process_with_lem first = refl

    -- The users' calls up to the reading of the histogram.
    users_lem :
        (s₁ : Session fl) (c₁ c₂ : Concurrent fl) (one : Reached fl c₀ s₁ c₁)
        (two : Reached fl c₁ c₁.session c₂)
        → users fl (one.used ++ two.used) s₁ ≡ returned tt c₂.session
    unfolding users
    users_lem s₁ c₁ c₂ one two =
        let calls : user_calls fl (one.used ++ two.used) s₁.it ≡ some c₂.session.it =
          user_calls-append fl one.used two.used s₁.it c₁.session.it c₂.session.it one.calls_last
            two.calls_last in
        ap (after_calls fl s₁) calls
        ∙ ap (λ w. returned tt (record { it = c₂.session.it; world = w }))
            (sym (two.same_world ∙ one.same_world))

    run_lem :
        (s₁ : Session fl) (c₁ c₂ : Concurrent fl) (one : Reached fl c₀ s₁ c₁)
        (two : Reached fl c₁ c₁.session c₂)
        → sends fl acks nacks s₀ ≡ returned tt s₁
        → process_with (one.used ++ two.used) c.session ≡ extends fl c₂.session
    run_lem s₁ c₁ c₂ one two e =
        process_with_lem (one.used ++ two.used)
        ∙ ap (then_with (one.used ++ two.used)) e
        ∙ ap then_extend (users_lem s₁ c₁ c₂ one two)

    abbrev after_turn : Outcome (Concurrent fl) (Unit {0}) → Outcome (Concurrent fl) ℕ
    after_turn o = elim o [
      | returned u c' ↦ extends_among fl c'
      | threw e c' ↦ threw e c'
      | blocked ↦ blocked
      | terminated ↦ terminated
    ]

    abbrev after_sends : Outcome (Concurrent fl) (Unit {0}) → Outcome (Concurrent fl) ℕ
    after_sends o = elim o [
      | returned u c' ↦ after_turn (others fl c')
      | threw e c' ↦ threw e c'
      | blocked ↦ blocked
      | terminated ↦ terminated
    ]

    ended :
        (s₁ : Session fl) (c₁ c₂ c₃ : Concurrent fl) (one : Reached fl c₀ s₁ c₁)
        (two : Reached fl c₁ c₁.session c₂) (t : Session fl)
        → Reached fl c₂ t c₃
        → Last (one.used ++ two.used) c t c₃
    ended s₁ c₁ c₂ c₃ one two t three = record {
      later = three.used;
      in_order =
          append_assoc one.used two.used (three.used ++ all_calls c₃.schedule)
          ∙ ap (λ cs. one.used ++ (two.used ++ cs)) three.in_order
          ∙ ap (λ cs. one.used ++ cs) two.in_order
          ∙ one.in_order;
      calls_last = three.calls_last;
      same_world = three.same_world;
    }

    extend_phase :
        (s₁ : Session fl) (c₁ c₂ : Concurrent fl) (one : Reached fl c₀ s₁ c₁)
        (two : Reached fl c₁ c₁.session c₂) (p : Outcome (Concurrent fl) ℕ)
        → sends fl acks nacks s₀ ≡ returned tt s₁
        → Agrees fl c₂ (extends fl c₂.session) p
        → Reorders c p
    extend_phase s₁ c₁ c₂ one two (returned ms c₃) e (t, same, three) = (
      one.used ++ two.used,
      t,
      run_lem s₁ c₁ c₂ one two e ∙ same,
      ended s₁ c₁ c₂ c₃ one two t three,
    )
    extend_phase s₁ c₁ c₂ one two (threw x c₃) e (t, same, three) = (
      one.used ++ two.used,
      t,
      run_lem s₁ c₁ c₂ one two e ∙ same,
      ended s₁ c₁ c₂ c₃ one two t three,
    )
    extend_phase s₁ c₁ c₂ one two blocked e same =
        (one.used ++ two.used, run_lem s₁ c₁ c₂ one two e ∙ same)
    extend_phase s₁ c₁ c₂ one two terminated e same = tt

    turn_phase :
        (s₁ : Session fl) (c₁ : Concurrent fl) (one : Reached fl c₀ s₁ c₁)
        (p : Outcome (Concurrent fl) (Unit {0}))
        → sends fl acks nacks s₀ ≡ returned tt s₁
        → Agrees fl c₁ (returned tt c₁.session) p
        → Reorders c (after_turn p)
    turn_phase s₁ c₁ one (returned u c₂) e (s', same, two) =
        let here : s' ≡ c₁.session = cc in
        extend_phase s₁ c₁ c₂ one (subst (λ s. Reached fl c₁ s c₂) here two) (extends_among fl c₂) e
          (extends-Refines fl c₂)
    turn_phase s₁ c₁ one (threw x c₂) e (s', same, two) = absurd (cc)
    turn_phase s₁ c₁ one blocked e same = absurd (cc)
    turn_phase s₁ c₁ one terminated e same = tt

    send_phase :
        (p : Outcome (Concurrent fl) (Unit {0}))
        → Agrees fl c₀ (sends fl acks nacks s₀) p
        → Reorders c (after_sends p)
    send_phase (returned u c₁) (s₁, e, one) =
        turn_phase s₁ c₁ one (others fl c₁) e (others-Refines fl c₁)
    send_phase (threw x c₁) (s₁, e, one) = (
      [],
      s₁,
      process_with_lem [] ∙ ap (then_with []) e,
      record {
        later = one.used;
        in_order = one.in_order;
        calls_last = one.calls_last;
        same_world = one.same_world;
      },
    )
    send_phase blocked e = ([], process_with_lem [] ∙ ap (then_with []) e)
    send_phase terminated e = tt

    -- However the users' threads call `Done` and `AddDeadlineWatcher` between the requests of
    -- `ProcessModAcks`, it has the outcome of a run, exception and requests included, in which they make
    -- those calls in the same order at two points only: some before the histogram is read, and the rest
    -- at the end; unless a call ends the program. Without such calls that run is `ProcessModAcks` alone.
    pub process_among-Reorders :
        Reorders c (process_among fl c)
        × (process_with [] c.session ≡ process_mod_acks fl c.session)
    unfolding process_among
    process_among-Reorders = (
      send_phase (sends_among fl acks nacks c₀) (sends-Refines fl acks nacks c₀),
      process_with-nil c.session,
    )
