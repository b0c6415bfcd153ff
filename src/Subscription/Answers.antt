-- ===== src/Subscription/Answers.antt =====
-- How the operations of pubsuber/src/SubscriptionImpl.cpp decide by the server's answer.
use pubsuber.Base.{ℕ, ◌%◌, ◌^◌, ◌≡◌, ◌⊎◌, inl, inr, refl, sym, ◌∙◌, ap, Bytes, Option, none, some}
use pubsuber.Double.{Float}
use pubsuber.Io.{
  StatusCode, from_status, Request, Reply, World, Outcome, returned, threw, blocked, terminated,
  Act, ◌>>=◌, After, ensure_connected,
}
use pubsuber.Io.Rules.{Holds-bind, Holds-mono}
use pubsuber.Retriable.{CallResult, make_call}
use pubsuber.Retriable.Meanings.{exists_meaning, create_meaning, delete_meaning}
use pubsuber.Retriable.Answers.{final_answer, IsGaveUp, reply_of, make_call-final_answer}
use pubsuber.Subscription.{
  Shared, call_subscription, on_exists, exists, on_created, create_subscription, on_deleted, delete,
}

-- The deadline that a subscription keeps: on OK the one of the answer.
abbrev pub saved_deadline : Reply → ℕ → ℕ
saved_deadline r old = elim r.status.error_code [
  | StatusCode.ok ↦ r.response.ack_deadline_seconds
  | _ ↦ old
]

abbrev pub same_deadline : Reply → ℕ → ℕ
same_deadline r old = old

module _ (fl : Float) (Callback : Type 0) where
  -- A result comes from a final answer that means it, and an exception from one that means none, whose
  -- code it carries, or from a call that was given up. `save` gives the deadline that is kept on a
  -- result.
  abbrev pub Decided :
      {A : Type 0}
      → (StatusCode → Option A)
      → (Reply → ℕ → ℕ)
      → Shared fl Callback
      → Outcome (Shared fl Callback) A
      → Type 0
  Decided meaning save s =
      After
        (λ a s'.
          (r : Reply) × (final_answer s.world.replies ≡ some (r, s'.world.replies))
          × (meaning r.status.error_code ≡ some a)
          × (s'.subscription.ack_deadline ≡ save r s.subscription.ack_deadline))
        (λ e s'.
          (IsGaveUp s.world.replies e.code s'.world
            ⊎ ((r : Reply) × (final_answer s.world.replies ≡ some (r, s'.world.replies))
                × (meaning r.status.error_code ≡ none)
                × (e.code ≡ from_status r.status.error_code)))
          × (s'.subscription.ack_deadline ≡ s.subscription.ack_deadline))

  abbrev Answered : Shared fl Callback → CallResult → Shared fl Callback → Type 0
  Answered s r s' =
      (final_answer s.world.replies ≡ some (reply_of r, s'.world.replies))
      × (s'.subscription.ack_deadline ≡ s.subscription.ack_deadline)

  call_subscription-final_answer :
      (request : Request) (s : Shared fl Callback)
      → After
          (Answered s)
          (λ e s'.
            IsGaveUp s.world.replies e.code s'.world
            × (s'.subscription.ack_deadline ≡ s.subscription.ack_deadline))
          (call_subscription fl Callback request s)
  unfolding call_subscription ensure_connected
  call_subscription-final_answer request s =
      go (make_call fl request s.subscription.policies (waited s.world))
        (make_call-final_answer fl request s.subscription.policies (waited s.world))
    where
      waited : World → World
      waited w = elim (ensure_connected w) [
        | returned c w' ↦ w'
        | threw e w' ↦ w'
        | blocked ↦ w
        | terminated ↦ w
      ]

      go :
          (o : Outcome World CallResult)
          → After
              (λ r w'. final_answer s.world.replies ≡ some (reply_of r, w'.replies))
              (λ e w'. IsGaveUp s.world.replies e.code w')
              o
          → After
              (Answered s)
              (λ e s'.
                IsGaveUp s.world.replies e.code s'.world
                × (s'.subscription.ack_deadline ≡ s.subscription.ack_deadline))
              (elim o [
                | returned r w ↦ returned r (record s { world = w })
                | threw e w ↦ threw e (record s { world = w })
                | blocked ↦ blocked
                | terminated ↦ terminated
              ])
      go (returned r w) h = (h, refl)
      go (threw e w) h = (h, refl)
      go blocked h = tt
      go terminated h = tt

  -- An action on the answer leaves the answers to come and goes by the meaning of its status.
  abbrev ReadsAt :
      {A : Type 0}
      → (StatusCode → Option A)
      → (Reply → ℕ → ℕ)
      → (CallResult → Act (Shared fl Callback) A)
      → CallResult
      → Shared fl Callback
      → Type 0
  ReadsAt meaning save k r s =
      After
        (λ a s'.
          (s'.world.replies ≡ s.world.replies)
          × (meaning r.status.error_code ≡ some a)
          × (s'.subscription.ack_deadline ≡ save (reply_of r) s.subscription.ack_deadline))
        (λ e s'.
          (s'.world.replies ≡ s.world.replies)
          × (meaning r.status.error_code ≡ none)
          × (e.code ≡ from_status r.status.error_code)
          × (s'.subscription.ack_deadline ≡ s.subscription.ack_deadline))
        (k r s)

  abbrev Reads :
      {A : Type 0}
      → (StatusCode → Option A)
      → (Reply → ℕ → ℕ)
      → (CallResult → Act (Shared fl Callback) A)
      → Type 0
  Reads meaning save k = (r : CallResult) (s : Shared fl Callback) → ReadsAt meaning save k r s

  call_subscription-Decided :
      {A : Type 0} (meaning : StatusCode → Option A) (save : Reply → ℕ → ℕ)
      (k : CallResult → Act (Shared fl Callback) A) (request : Request) (s : Shared fl Callback)
      → Reads meaning save k
      → Decided meaning save s ((call_subscription fl Callback request >>= k) s)
  call_subscription-Decided meaning save k request s reads =
      Holds-bind _ _ _ (Unit {0}) (call_subscription fl Callback request) k s
        (Holds-mono _ (Answered s) _ _ (Unit {0}) (call_subscription fl Callback request s)
          (call_subscription-final_answer request s) (λ r s' h. h) (λ e s' h. (inl h.0, h.1)))
        (λ r s' h.
          Holds-mono _ _ _ _ (Unit {0}) (k r s') (reads r s')
            (λ a s'' g. (
              reply_of r,
              h.0 ∙ ap (λ rs. some (reply_of r, rs)) (sym g.0),
              g.1,
              g.2 ∙ ap (save (reply_of r)) h.1,
            ))
            (λ e s'' g. (
              inr (reply_of r, h.0 ∙ ap (λ rs. some (reply_of r, rs)) (sym g.0), g.1, g.2),
              g.3 ∙ h.1,
            )))

  -- The answer with another code.
  abbrev with_code : CallResult → StatusCode → CallResult
  with_code r c = record r { status = record r.status { error_code = c } }

  on_exists-Reads : Reads exists_meaning saved_deadline (on_exists fl Callback)
  unfolding on_exists
  on_exists-Reads r s =
      elim r.status.error_code
        as (λ c. ReadsAt exists_meaning saved_deadline (on_exists fl Callback) (with_code r c) s) [
          | StatusCode.ok ↦ (refl, refl, refl)
          | StatusCode.not_found ↦ (refl, refl, refl)
          | _ ↦ (refl, refl, refl, refl)
        ]

  on_created-Reads : Reads create_meaning saved_deadline (on_created fl Callback)
  unfolding on_created
  on_created-Reads r s =
      elim r.status.error_code
        as (λ c. ReadsAt create_meaning saved_deadline (on_created fl Callback) (with_code r c) s) [
          | StatusCode.ok ↦ (refl, refl, refl)
          | _ ↦ (refl, refl, refl, refl)
        ]

  on_deleted-Reads : Reads delete_meaning same_deadline (on_deleted fl Callback)
  unfolding on_deleted
  on_deleted-Reads r s =
      elim r.status.error_code
        as (λ c. ReadsAt delete_meaning same_deadline (on_deleted fl Callback) (with_code r c) s) [
          | StatusCode.ok ↦ (refl, refl, refl)
          | StatusCode.not_found ↦ (refl, refl, refl)
          | _ ↦ (refl, refl, refl, refl)
        ]

  -- `Exists`, `Create` and `Delete` of a subscription go by the first answer that is none to retry:
  -- `Exists` returns true on OK and false on NOT_FOUND, `Create` returns on OK and `Delete` on either;
  -- on any other status they throw with its code. If the answers that were used up are all to be
  -- retried, they throw with the code of the last one, or with OK if there was none. `Exists` and `Create` keep the deadline of the answer on OK, and nothing
  -- else changes the deadline that is kept.
  pub subscription_calls-Decided :
      (topic : Bytes) (deadline : ℕ) (s : Shared fl Callback)
      → Decided exists_meaning saved_deadline s (exists fl Callback s)
        × Decided create_meaning saved_deadline s (create_subscription fl Callback topic deadline s)
        × Decided delete_meaning same_deadline s (delete fl Callback s)
  unfolding exists create_subscription delete
  subscription_calls-Decided topic deadline s = (
    call_subscription-Decided exists_meaning saved_deadline (on_exists fl Callback)
        (Request.get_subscription s.subscription.full_name) s on_exists-Reads,
    call_subscription-Decided create_meaning saved_deadline (on_created fl Callback)
        (Request.create_subscription s.subscription.full_name topic (deadline % 2 ^ 32)) s
        on_created-Reads,
    call_subscription-Decided delete_meaning same_deadline (on_deleted fl Callback)
        (Request.delete_subscription s.subscription.full_name) s on_deleted-Reads,
  )
