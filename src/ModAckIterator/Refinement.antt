-- ===== src/ModAckIterator/Refinement.antt =====
-- Runs of pubsuber/src/ModAckIterator.cpp between the calls of the users' threads, and the runs in
-- which those calls come last.
use pubsuber.Base.{◌≡◌, ◌∙◌, refl, sym, ap, subst, List, [], ◌∷◌, ◌++◌, Option, none, some}
use mathlib.Core.List.{append_assoc}
use pubsuber.Double.{Float}
use pubsuber.Io.{Exception, Outcome, returned, threw, blocked, terminated, Act, ◌>>=◌, pure}
use pubsuber.ModAckIterator.State.{ModAckIterator}
use pubsuber.ModAckIterator.Requests.{Session}
use pubsuber.ModAckIterator.Users.{
  UserCall, Common, common, with_common, user_calls, user_calls-Carries, user_calls-common,
  user_calls-append,
}
use pubsuber.ModAckIterator.Local.{on_state, shared_as, IsLocal}
use pubsuber.ModAckIterator.Concurrent.{
  Concurrent, with_schedule, after_calls, alone, users, others,
}

-- The calls of all turns.
abbrev pub all_calls : List (List UserCall) → List UserCall
all_calls [] = []
all_calls (cs ∷ schedule) = cs ++ all_calls schedule

module _ (fl : Float) where
  -- From `c` to `c'` the users' threads made some calls, and those calls, made at `s'`, give `c'`.
  pub record Reached (c : Concurrent fl) (s' : Session fl) (c' : Concurrent fl) : Type 0 where
    pub used : List UserCall
    pub in_order : used ++ all_calls c'.schedule ≡ all_calls c.schedule
    pub calls_last : user_calls fl used s'.it ≡ some c'.session.it
    pub same_world : c'.session.world ≡ s'.world

  -- An outcome among the calls of the users' threads, against one alone.
  abbrev pub Agrees :
      {A : Type 0} → Concurrent fl → Outcome (Session fl) A → Outcome (Concurrent fl) A → Type 0
  Agrees c o (returned a c') = (s' : Session fl) × (o ≡ returned a s') × Reached c s' c'
  Agrees c o (threw e c') = (s' : Session fl) × (o ≡ threw e s') × Reached c s' c'
  Agrees c o blocked = o ≡ blocked
  Agrees c o terminated = Unit {0}

  -- An action among the calls of the users' threads does what the action alone does, with the calls
  -- after it.
  abbrev pub Refines : {A : Type 0} → Act (Session fl) A → Act (Concurrent fl) A → Type 0
  Refines m among = (c : Concurrent fl) → Agrees c (m c.session) (among c)

  Reached-alone : (c : Concurrent fl) (s' : Session fl) → Reached c s' (record c { session = s' })
  unfolding user_calls
  Reached-alone c s' = record { used = []; in_order = refl; calls_last = refl; same_world = refl }

  pub alone-Refines : {A : Type 0} (m : Act (Session fl) A) → Refines m (alone fl m)
  alone-Refines {A} m c = go (m c.session)
    where
      go : (o : Outcome (Session fl) A) → Agrees c o (with_schedule fl c.schedule o)
      go (returned a s) = (s, refl, Reached-alone c s)
      go (threw e s) = (s, refl, Reached-alone c s)
      go blocked = refl
      go terminated = tt

  abbrev turn : List (List UserCall) → Concurrent fl → Outcome (Concurrent fl) (Unit {0})
  turn schedule c = elim schedule [
    | [] ↦ returned tt c
    | cs ∷ rest ↦ with_schedule fl rest (users fl cs c.session)
  ]

  made_turn :
      (cs : List UserCall) (rest : List (List UserCall)) (c : Concurrent fl)
      (o : Option (ModAckIterator fl))
      → user_calls fl cs c.session.it ≡ o
      → cs ++ all_calls rest ≡ all_calls c.schedule
      → Agrees c (returned tt c.session) (with_schedule fl rest (after_calls fl c.session o))
  made_turn cs rest c none f e = tt
  made_turn cs rest c (some it) f e =
      (c.session, refl, record { used = cs; in_order = e; calls_last = f; same_world = refl })

  pub others-Refines : Refines (pure tt) (others fl)
  unfolding others users
  others-Refines c = go c.schedule refl
    where
      go :
          (schedule : List (List UserCall))
          → schedule ≡ c.schedule
          → Agrees c (returned tt c.session) (turn schedule c)
      go [] e = (c.session, refl, Reached-alone c c.session)
      go (cs ∷ rest) e = made_turn cs rest c (user_calls fl cs c.session.it) refl (ap all_calls e)

  -- What the second of two actions adds: calls made before it count as made after it.
  module _ (c c₁ : Concurrent fl) (s₁ : Session fl) (first : Reached c s₁ c₁) where
    abbrev between : Common
    between = common fl c₁.session.it

    -- The outcome of a local action that started at `s₁`.
    abbrev Kept : {B : Type 0} → Outcome (Session fl) B → Type 0
    Kept o = o ≡ on_state (shared_as fl (common fl s₁.it)) o

    same_session : c₁.session ≡ shared_as fl between s₁
    same_session =
        ap (λ it. record c₁.session { it = it })
          (user_calls-common fl first.used s₁.it c₁.session.it first.calls_last)
        ∙ ap (λ w. record (shared_as fl between s₁) { world = w }) first.same_world

    Reached-later :
        (s₂ : Session fl) (c₂ : Concurrent fl)
        → s₂ ≡ shared_as fl (common fl s₁.it) s₂
        → Reached c₁ (shared_as fl between s₂) c₂
        → Reached c s₂ c₂
    Reached-later s₂ c₂ kept second = record {
      used = first.used ++ second.used;
      in_order =
          append_assoc first.used second.used (all_calls c₂.schedule)
          ∙ ap (λ cs. first.used ++ cs) second.in_order
          ∙ first.in_order;
      calls_last =
          user_calls-append fl first.used second.used s₂.it (with_common fl between s₂.it)
            c₂.session.it
            (ap (λ s. user_calls fl first.used (Session.it s)) kept
              ∙ user_calls-Carries fl first.used s₁.it c₁.session.it s₂.it first.calls_last)
            second.calls_last;
      same_world = second.same_world;
    }

    returned-later :
        {B : Type 0} (b b' : B) (s₂ s₃ : Session fl) (c₂ : Concurrent fl)
        → Kept (returned b s₂)
        → returned b (shared_as fl between s₂) ≡ returned b' s₃
        → Reached c₁ s₃ c₂
        → (s' : Session fl) × (returned b s₂ ≡ returned b' s') × Reached c s' c₂
    returned-later b b' s₂ s₃ c₂ kept e second =
        let same : b ≡ b' = cc in
        let state : shared_as fl between s₂ ≡ s₃ = cc in
        let mine : s₂ ≡ shared_as fl (common fl s₁.it) s₂ = cc in
        (
          s₂,
          ap (λ x. returned x s₂) same,
          Reached-later s₂ c₂ mine (subst (λ s. Reached c₁ s c₂) (sym state) second),
        )

    abbrev failed : (B : Type 0) → Exception → Session fl → Outcome (Session fl) B
    failed B e s = threw e s

    threw-later :
        {B : Type 0} (e e' : Exception) (s₂ s₃ : Session fl) (c₂ : Concurrent fl)
        → Kept (failed B e s₂)
        → failed B e (shared_as fl between s₂) ≡ threw e' s₃
        → Reached c₁ s₃ c₂
        → (s' : Session fl) × (failed B e s₂ ≡ threw e' s') × Reached c s' c₂
    threw-later {B} e e' s₂ s₃ c₂ kept f second =
        let same : e ≡ e' = cc in
        let state : shared_as fl between s₂ ≡ s₃ = cc in
        let mine : s₂ ≡ shared_as fl (common fl s₁.it) s₂ = cc in
        (
          s₂,
          ap (λ x. failed B x s₂) same,
          Reached-later s₂ c₂ mine (subst (λ s. Reached c₁ s c₂) (sym state) second),
        )

    Agrees-later :
        {B : Type 0} (o : Outcome (Session fl) B) (p : Outcome (Concurrent fl) B)
        → Kept o
        → Agrees c₁ (on_state (shared_as fl between) o) p
        → Agrees c o p
    Agrees-later (returned b s₂) (returned b' c₂) kept h =
        returned-later b b' s₂ h.0 c₂ kept h.1 h.2
    Agrees-later (threw e s₂) (threw e' c₂) kept h = threw-later e e' s₂ h.0 c₂ kept h.1 h.2
    Agrees-later (returned b s₂) (threw e c₂) kept h = absurd (cc)
    Agrees-later (threw e s₂) (returned b c₂) kept h = absurd (cc)
    Agrees-later blocked (returned b c₂) kept h = absurd (cc)
    Agrees-later blocked (threw e c₂) kept h = absurd (cc)
    Agrees-later terminated (returned b c₂) kept h = absurd (cc)
    Agrees-later terminated (threw e c₂) kept h = absurd (cc)
    Agrees-later (returned b s₂) blocked kept h = absurd (cc)
    Agrees-later (threw e s₂) blocked kept h = absurd (cc)
    Agrees-later blocked blocked kept h = refl
    Agrees-later terminated blocked kept h = absurd (cc)
    Agrees-later _ terminated kept h = tt

  pub bind-Refines :
      {A B : Type 0} (m : Act (Session fl) A) (k : A → Act (Session fl) B)
      (m' : Act (Concurrent fl) A) (k' : A → Act (Concurrent fl) B)
      → Refines m m'
      → ((a : A) → Refines (k a) (k' a))
      → ((a : A) → IsLocal fl (k a))
      → Refines (m >>= k) (m' >>= k')
  bind-Refines {A} {B} m k m' k' h g local c = go (m c.session) (m' c) (h c)
    where
      after : Outcome (Session fl) A → Outcome (Session fl) B
      after o = elim o [
        | returned a s ↦ k a s
        | threw e s ↦ threw e s
        | blocked ↦ blocked
        | terminated ↦ terminated
      ]

      after' : Outcome (Concurrent fl) A → Outcome (Concurrent fl) B
      after' o = elim o [
        | returned a s ↦ k' a s
        | threw e s ↦ threw e s
        | blocked ↦ blocked
        | terminated ↦ terminated
      ]

      go :
          (o : Outcome (Session fl) A) (p : Outcome (Concurrent fl) A)
          → Agrees c o p
          → Agrees c (after o) (after' p)
      go o (returned a c₁) (s₁, e, first) =
          let common₁ : Common = common fl c₁.session.it in
          subst (λ o. Agrees c (after o) (k' a c₁)) (sym e)
            (Agrees-later c c₁ s₁ first (k a s₁) (k' a c₁) (local a (common fl s₁.it) s₁) (
              subst (λ o. Agrees c₁ o (k' a c₁))
                (ap (k a) (same_session c c₁ s₁ first) ∙ local a common₁ s₁) (g a c₁)))
      go o (threw x c₁) (s₁, e, first) = (s₁, ap after e, first)
      go o blocked e = ap after e
      go o terminated e = tt
