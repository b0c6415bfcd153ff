-- ===== src/Topic/Answers.antt =====
-- How the operations of pubsuber/src/TopicImpl.cpp decide by the server's answer.
use pubsuber.Base.{
  ◌≡◌, ◌⊎◌, inl, inr, refl, sym, ◌∙◌, ap, List, text, true, false, Option, none, some,
}
use pubsuber.Double.{Float}
use pubsuber.Io.{
  StatusCode, from_status, Request, get_topic, create_topic, delete_topic, Reply, World, Outcome,
  Act, ◌>>=◌, pure, throw, on_status, After, ensure_connected,
}
use pubsuber.Io.Rules.{Holds-bind, Holds-mono}
use pubsuber.Retriable.{CallResult}
use pubsuber.Retriable.Meanings.{exists_meaning, create_meaning, delete_meaning}
use pubsuber.Retriable.Answers.{final_answer, IsGaveUp, reply_of, make_call-final_answer}
use pubsuber.Topic.{TopicImpl, on_code, call_topic, exists, create, delete}

-- A result comes from a final answer that means it, and an exception from one that means none, whose
-- code it carries, or from a call that was given up and met no final answer.
abbrev pub Decided : {A : Type 0} → (StatusCode → Option A) → List Reply → Outcome World A → Type 0
Decided meaning replies =
    After
      (λ a w'.
        (r : Reply) × (final_answer replies ≡ some (r, w'.replies))
        × (meaning r.status.error_code ≡ some a))
      (λ e w'.
        IsGaveUp replies e.code w'
        ⊎ ((r : Reply) × (final_answer replies ≡ some (r, w'.replies))
            × (meaning r.status.error_code ≡ none)
            × (e.code ≡ from_status r.status.error_code)))

module _ (fl : Float) where
  call_topic-final_answer :
      (t : TopicImpl fl) (request : Request) (w : World)
      → After
          (λ r w'. final_answer w.replies ≡ some (reply_of r, w'.replies))
          (λ e w'. IsGaveUp w.replies e.code w')
          (call_topic fl t request w)
  unfolding call_topic ensure_connected
  call_topic-final_answer t request w = make_call-final_answer fl request t.policies _

  -- An action on the answer that keeps the world and goes by its meaning.
  abbrev Reads : {A : Type 0} → (StatusCode → Option A) → (CallResult → Act World A) → Type 0
  Reads meaning k =
      (r : CallResult) (w : World)
      → After (λ a w'. (w' ≡ w) × (meaning r.status.error_code ≡ some a))
          (λ e w'.
            (w' ≡ w)
            × (meaning r.status.error_code ≡ none)
            × (e.code ≡ from_status r.status.error_code))
          (k r w)

  call_topic-Decided :
      {A : Type 0} (meaning : StatusCode → Option A) (k : CallResult → Act World A)
      (t : TopicImpl fl) (request : Request) (w : World)
      → Reads meaning k
      → Decided meaning w.replies ((call_topic fl t request >>= k) w)
  call_topic-Decided meaning k t request w reads =
      Holds-bind _ _ _ (Unit {0}) (call_topic fl t request) k w
        (Holds-mono _ (λ r w'. final_answer w.replies ≡ some (reply_of r, w'.replies)) _ _
          (Unit {0}) (call_topic fl t request w) (call_topic-final_answer t request w) (λ r w' h. h)
          (λ e w' h. inl h))
        (λ r w' h.
          Holds-mono _ _ _ _ (Unit {0}) (k r w') (reads r w')
            (λ a w'' g.
              (reply_of r, h ∙ ap (λ v. some (reply_of r, World.replies v)) (sym g.0), g.1))
            (λ e w'' g.
              inr
                (reply_of r, h ∙ ap (λ v. some (reply_of r, World.replies v)) (sym g.0), g.1, g.2)))

  -- `Exists`, `Create` and `Delete` of a topic go by the first answer that is none to retry: `Exists`
  -- returns true on OK and false on NOT_FOUND, `Create` returns on OK and `Delete` on either; on any
  -- other status they throw with its code. If the answers that were used up are all to be retried, they
  -- throw with the code of the last one, or with OK if there was none.
  pub topic_calls-Decided :
      (t : TopicImpl fl) (w : World)
      → Decided exists_meaning w.replies (exists fl t w)
        × Decided create_meaning w.replies (create fl t w)
        × Decided delete_meaning w.replies (delete fl t w)
  unfolding exists create delete
  topic_calls-Decided t w = (
    call_topic-Decided exists_meaning _ t (get_topic t.full_name) w (λ r w'.
        let e = on_status (text "Pubsuber: GetTopicRequest request failed with error ") r.status in
        elim r.status.error_code
          as (λ c.
            After (λ a w''. (w'' ≡ w') × (exists_meaning c ≡ some a))
              (λ x w''. (w'' ≡ w') × (exists_meaning c ≡ none) × (x.code ≡ from_status c))
              (on_code c (pure true) (pure false) (throw (record e { code = from_status c })) w')) [
                | StatusCode.ok ↦ (refl, refl)
                | StatusCode.not_found ↦ (refl, refl)
                | _ ↦ (refl, refl, refl)
              ]),
    call_topic-Decided create_meaning _ t (create_topic t.full_name) w (λ r w'.
        let e = on_status (text "Pubsuber: CreateTopic request failed with error ") r.status in
        elim r.status.error_code
          as (λ c.
            After (λ a w''. (w'' ≡ w') × (create_meaning c ≡ some a))
              (λ x w''. (w'' ≡ w') × (create_meaning c ≡ none) × (x.code ≡ from_status c))
              (on_code c (pure tt) (throw (record e { code = from_status c }))
                (throw (record e { code = from_status c })) w')) [
                  | StatusCode.ok ↦ (refl, refl)
                  | _ ↦ (refl, refl, refl)
                ]),
    call_topic-Decided delete_meaning _ t (delete_topic t.full_name) w (λ r w'.
        let e = on_status (text "Pubsuber: DeleteTopic request failed with error ") r.status in
        elim r.status.error_code
          as (λ c.
            After (λ a w''. (w'' ≡ w') × (delete_meaning c ≡ some a))
              (λ x w''. (w'' ≡ w') × (delete_meaning c ≡ none) × (x.code ≡ from_status c))
              (on_code c (pure tt) (pure tt) (throw (record e { code = from_status c })) w')) [
                | StatusCode.ok ↦ (refl, refl)
                | StatusCode.not_found ↦ (refl, refl)
                | _ ↦ (refl, refl, refl)
              ]),
  )
