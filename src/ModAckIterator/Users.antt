-- ===== src/ModAckIterator/Users.antt =====
-- The calls of pubsuber/src/ModAckIterator.h that the users' threads make, `AddDeadlineWatcher` and
-- `Done`, and the part of the iterator that they read and write.
use pubsuber.Base.{
  ℕ, ◌≡◌, ◌∙◌, refl, sym, ap, subst, List, [], ◌∷◌, ◌++◌, Bytes, Bool, true, false, if◌then◌else◌,
  Option, none, some,
}
use pubsuber.Containers.{Map, KeySet, insert_or_assign}
use pubsuber.Double.{Float}
use pubsuber.Distribution.{Distribution, record_value}
use pubsuber.ModAckIterator.State.{
  AckWatchDescriptor, DoneAction, ack, nack, ModAckIterator, seconds_since, add_deadline_watcher,
  set_done, done,
}

-- A call with its arguments, and for `Done` the reading of the clock.
pub data UserCall : Type 0 where
  watch : Bytes → ℕ → UserCall
  settle : Bytes → ℕ → ℕ → DoneAction → UserCall

-- The members that the calls read or write.
pub record Common : Type 0 where
  pub ack_dist : Distribution
  pub has_executor : Bool
  pub input_ack_ids : Map AckWatchDescriptor
  pub pending_ack_ids : KeySet
  pub pending_nack_ids : KeySet

module _ (fl : Float) where
  unfoldable pub user_call : UserCall → ModAckIterator fl → Option (ModAckIterator fl)
  unfolding add_deadline_watcher done
  user_call (watch ack_id next_ack) it = some (add_deadline_watcher fl ack_id next_ack it)
  user_call (settle ack_id rt now action) it = done fl ack_id rt now action it

  -- The calls in their order.
  unfoldable pub user_calls : List UserCall → ModAckIterator fl → Option (ModAckIterator fl)
  unfolding user_call
  user_calls [] it = some it
  user_calls (c ∷ cs) it = elim (user_call c it) [ none ↦ none | some it' ↦ user_calls cs it' ]

  abbrev pub common : ModAckIterator fl → Common
  common it = record {
    ack_dist = it.ack_dist;
    has_executor = it.has_executor;
    input_ack_ids = it.input_ack_ids;
    pending_ack_ids = it.pending_ack_ids;
    pending_nack_ids = it.pending_nack_ids;
  }

  -- The iterator with another common part.
  abbrev pub with_common : Common → ModAckIterator fl → ModAckIterator fl
  with_common c it = record it {
    ack_dist = c.ack_dist;
    has_executor = c.has_executor;
    input_ack_ids = c.input_ack_ids;
    pending_ack_ids = c.pending_ack_ids;
    pending_nack_ids = c.pending_nack_ids;
  }

  -- The step is the same on every iterator with the same common part.
  abbrev Carries : (ModAckIterator fl → Option (ModAckIterator fl)) → Type 0
  Carries f =
      (it it' other : ModAckIterator fl)
      → f it ≡ some it'
      → f (with_common (common it) other) ≡ some (with_common (common it') other)

  some-injective : {A : Type 0} {a b : A} → some a ≡ some b → a ≡ b
  some-injective e = cc

  set_done-with_common :
      (key : Bytes) (action : DoneAction) (it other : ModAckIterator fl)
      → set_done fl key action (with_common (common it) other)
        ≡ with_common (common (set_done fl key action it)) other
  unfolding set_done
  set_done-with_common key ack it other = refl
  set_done-with_common key nack it other = refl

  watch-Carries : (ack_id : Bytes) (next_ack : ℕ) → Carries (user_call (watch ack_id next_ack))
  unfolding user_call add_deadline_watcher
  watch-Carries ack_id next_ack it it' other e =
      ap some (go it.has_executor)
      ∙ ap (λ i. some (with_common (common i) other)) (some-injective e)
    where
      added : ModAckIterator fl → ModAckIterator fl
      added i = record i {
        input_ack_ids = insert_or_assign ack_id (record { next_ack = next_ack }) i.input_ack_ids;
      }

      go :
          (b : Bool)
          → (if b then added (with_common (common it) other) else with_common (common it) other)
            ≡ with_common (common (if b then added it else it)) other
      go true = refl
      go false = refl

  settle-Carries :
      (ack_id : Bytes) (rt now : ℕ) (action : DoneAction)
      → Carries (user_call (settle ack_id rt now action))
  unfolding user_call done
  settle-Carries ack_id rt now action it it' other e =
      go (record_value (seconds_since rt now) it.ack_dist) e
    where
      recorded : ModAckIterator fl → Distribution → ModAckIterator fl
      recorded i dist = record i { ack_dist = dist }

      by_executor :
          (b : Bool) (dist : Distribution)
          → (if b
              then set_done fl ack_id action (recorded (with_common (common it) other) dist)
              else recorded (with_common (common it) other) dist)
            ≡ with_common
                (common
                  (if b then set_done fl ack_id action (recorded it dist) else recorded it dist))
                other
      by_executor true dist = set_done-with_common ack_id action (recorded it dist) other
      by_executor false dist = refl

      go :
          (o : Option Distribution)
          → elim o [
            | none ↦ none
            | some dist ↦ some (
                if it.has_executor
                then set_done fl ack_id action (recorded it dist)
                else recorded it dist)
          ]
            ≡ some it'
          → elim o [
            | none ↦ none
            | some dist ↦ some (
                if it.has_executor
                then set_done fl ack_id action (recorded (with_common (common it) other) dist)
                else recorded (with_common (common it) other) dist)
          ]
            ≡ some (with_common (common it') other)
      go none e = absurd (cc)
      go (some dist) e =
          ap some (by_executor it.has_executor dist)
          ∙ ap (λ i. some (with_common (common i) other)) (some-injective e)

  user_call-Carries : (c : UserCall) → Carries (user_call c)
  user_call-Carries (watch ack_id next_ack) = watch-Carries ack_id next_ack
  user_call-Carries (settle ack_id rt now action) = settle-Carries ack_id rt now action

  user_calls-cons :
      (c : UserCall) (cs : List UserCall) (it it₁ : ModAckIterator fl)
      → user_call c it ≡ some it₁
      → user_calls (c ∷ cs) it ≡ user_calls cs it₁
  unfolding user_calls
  user_calls-cons c cs it it₁ e = rw (e, user_calls)

  -- The calls of the users that do not end the program, the first one apart.
  pub user_calls-split :
      (c : UserCall) (cs : List UserCall) (it it' : ModAckIterator fl)
      → user_calls (c ∷ cs) it ≡ some it'
      → (it₁ : ModAckIterator fl) × (user_call c it ≡ some it₁) × (user_calls cs it₁ ≡ some it')
  unfolding user_calls
  user_calls-split c cs it it' e = go (user_call c it) refl e
    where
      go :
          (o : Option (ModAckIterator fl))
          → user_call c it ≡ o
          → elim o [ none ↦ none | some it₁ ↦ user_calls cs it₁ ] ≡ some it'
          → (it₁ : ModAckIterator fl) × (user_call c it ≡ some it₁) × (user_calls cs it₁ ≡ some it')
      go none same e = absurd (cc)
      go (some it₁) same e = (it₁, same, e)

  pub user_calls-Carries : (cs : List UserCall) → Carries (user_calls cs)
  unfolding user_calls
  user_calls-Carries [] it it' other e =
      ap (λ i. some (with_common (common i) other)) (some-injective e)
  user_calls-Carries (c ∷ cs) it it' other e =
      let (it₁, first, later) = user_calls-split c cs it it' e in
      user_calls-cons c cs (with_common (common it) other) (with_common (common it₁) other)
        (user_call-Carries c it it₁ other first)
      ∙ user_calls-Carries cs it₁ it' other later

  -- The calls change the common part only.
  pub user_calls-common :
      (cs : List UserCall) (it it' : ModAckIterator fl)
      → user_calls cs it ≡ some it'
      → it' ≡ with_common (common it') it
  user_calls-common cs it it' e = some-injective (sym e ∙ user_calls-Carries cs it it' it e)

  pub user_calls-append :
      (cs ds : List UserCall) (it it₁ it' : ModAckIterator fl)
      → user_calls cs it ≡ some it₁
      → user_calls ds it₁ ≡ some it'
      → user_calls (cs ++ ds) it ≡ some it'
  unfolding user_calls
  user_calls-append [] ds it it₁ it' e f =
      subst (λ i. user_calls ds i ≡ some it') (sym (some-injective e)) f
  user_calls-append (c ∷ cs) ds it it₁ it' e f =
      let (it₂, first, later) = user_calls-split c cs it it₁ e in
      user_calls-cons c (cs ++ ds) it it₂ first ∙ user_calls-append cs ds it₂ it₁ it' later f
