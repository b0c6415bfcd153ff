-- ===== src/Interfaces/Objects.antt =====
-- The classes of pubsuber/src that implement the abstract ones.
use pubsuber.Base.{ℕ, List, ◌≡◌, refl, sym, subst, Option, none, some}
use pubsuber.Double.{Float}
use pubsuber.Io.{
  StatusCode, Request, get_topic, create_topic, delete_topic, World, Outcome, returned, threw,
  blocked, terminated, Act, ◌>>=◌, After,
}
use pubsuber.Io.Rules.{Holds-bind, Holds-mono}
use pubsuber.Retriable.{CallResult}
use pubsuber.Retriable.Spends.{Grown, Grown-mono}
use pubsuber.ModAckIterator.{DoneAction}
use pubsuber.ModAckIterator
use pubsuber.Message.{Held, settle}
use pubsuber.Message
use pubsuber.Topic.{TopicImpl, call_topic, on_code}
use pubsuber.Topic
use pubsuber.Topic.Calls.{call_topic-Grown, publish-Publishes}
use pubsuber.Subscription.{SubscriptionImpl, Shared}
use pubsuber.Subscription
use pubsuber.Interfaces.{Asks, IsTopic}
use pubsuber.Interfaces

module _ (fl : Float) where
  abbrev or_terminate : Option (Held fl) → Outcome (Held fl) (Unit {0})
  or_terminate none = terminated
  or_terminate (some h) = returned tt h

  -- `MessageImpl`, called at the clock reading `now`.
  abbrev pub message_of : ℕ → Interfaces.Message (Held fl)
  message_of now = record {
    payload = λ h. Message.payload h.message;
    attributes = λ h. h.message.attributes;
    message_subscription = λ h. h.message.subscription_name;
    ack = λ h. or_terminate (settle fl ModAckIterator.ack now h);
    nack = λ h. or_terminate (settle fl ModAckIterator.nack now h);
  }

  -- `TopicImpl`.
  abbrev pub topic_of : TopicImpl fl → Interfaces.Topic World
  topic_of t = record {
    id = t.id;
    name = t.full_name;
    exists = Topic.exists fl t;
    create = Topic.create fl t;
    delete = Topic.delete fl t;
    publish_message = Topic.publish_message fl t;
  }

  -- `SubscriptionImpl`; `raw` is the memory of a new histogram. The state holds the object.
  abbrev pub subscription_of :
      (Callback : Type 0)
      → Shared fl Callback
      → List ℕ
      → Interfaces.Subscription (Shared fl Callback) Callback
  subscription_of Callback s raw = record {
    id = s.subscription.id;
    name = s.subscription.full_name;
    exists = Subscription.exists fl Callback;
    create = λ options.
        Subscription.create_subscription fl Callback options.full_topic_name options.ack_deadline;
    delete = Subscription.delete fl Callback;
    receive = λ callback. Subscription.receive fl Callback (some callback) raw;
    stop = Subscription.stop fl Callback;
  }

  -- A call on the world that the subscription's state holds.
  abbrev in_shared :
      {Callback A : Type 0} → Shared fl Callback → Outcome World A → Outcome (Shared fl Callback) A
  in_shared s (returned a w) = returned a (record s { world = w })
  in_shared s (threw e w) = threw e (record s { world = w })
  in_shared s blocked = blocked
  in_shared s terminated = terminated

  -- `TopicImpl` beside a subscription.
  abbrev pub shared_topic :
      (Callback : Type 0) → TopicImpl fl → Interfaces.Topic (Shared fl Callback)
  shared_topic Callback t = record {
    id = t.id;
    name = t.full_name;
    exists = λ s. in_shared s (Topic.exists fl t s.world);
    create = λ s. in_shared s (Topic.create fl t s.world);
    delete = λ s. in_shared s (Topic.delete fl t s.world);
    publish_message =
        λ buffer attributes s. in_shared s (Topic.publish_message fl t buffer attributes s.world);
  }

  -- What a method does with an answer keeps the world.
  abbrev KeepsWorld : {A : Type 0} → (CallResult → Act World A) → Type 0
  KeepsWorld k = (r : CallResult) (w : World) → After (λ a w'. w' ≡ w) (λ e w'. w' ≡ w) (k r w)

  call_topic-Asks :
      {A : Type 0} (t : TopicImpl fl) (request : Request) (k : CallResult → Act World A)
      → KeepsWorld k
      → Asks (λ w. w) (λ q. request ≡ q) (call_topic fl t request >>= k)
  call_topic-Asks t request k keeps w =
      Holds-bind _ _ _ (Unit {0}) (call_topic fl t request) k w
        (Holds-mono _ (λ r w'. Grown (λ q. request ≡ q) w w') _
          (λ e w'. Grown (λ q. request ≡ q) w w') (Unit {0}) (call_topic fl t request w)
          (call_topic-Grown fl t request w) (λ r w' h. h.0) (λ e w' h. h))
        (λ r w' g.
          Holds-mono _ _ _ _ (Unit {0}) (k r w') (keeps r w')
            (λ a w'' e. subst (Grown (λ q. request ≡ q) w) (sym e) g)
            (λ x w'' e. subst (Grown (λ q. request ≡ q) w) (sym e) g))

  abbrev SameWorld : {A : Type 0} → World → Outcome World A → Type 0
  SameWorld w = After (λ a w'. w' ≡ w) (λ e w'. w' ≡ w)

  on_code-SameWorld :
      {A : Type 0} (code : StatusCode) (on_ok on_missing otherwise : Act World A) (w : World)
      → SameWorld w (on_ok w)
      → SameWorld w (on_missing w)
      → SameWorld w (otherwise w)
      → SameWorld w (on_code code on_ok on_missing otherwise w)
  on_code-SameWorld StatusCode.ok on_ok on_missing otherwise w h k l = h
  on_code-SameWorld StatusCode.not_found on_ok on_missing otherwise w h k l = k
  on_code-SameWorld StatusCode.deadline_exceeded on_ok on_missing otherwise w h k l = l
  on_code-SameWorld StatusCode.unavailable on_ok on_missing otherwise w h k l = l
  on_code-SameWorld (StatusCode.other n) on_ok on_missing otherwise w h k l = l

  -- `TopicImpl` keeps the promises of `Topic`: whether a method returns or throws, `Exists`, `Create` and
  -- `Delete` send no request but their own for the topic's full name, and `Publish` sends no request but
  -- publications to that name of the text that it was given.
  pub topic_of-IsTopic : (t : TopicImpl fl) → IsTopic (λ w. w) (topic_of t)
  unfolding Topic.exists Topic.create Topic.delete
  topic_of-IsTopic t = record {
    exists_asks =
        call_topic-Asks t (get_topic t.full_name) _
          (λ r w. on_code-SameWorld r.status.error_code _ _ _ w refl refl refl);
    create_asks =
        call_topic-Asks t (create_topic t.full_name) _
          (λ r w. on_code-SameWorld r.status.error_code _ _ _ w refl refl refl);
    delete_asks =
        call_topic-Asks t (delete_topic t.full_name) _
          (λ r w. on_code-SameWorld r.status.error_code _ _ _ w refl refl refl);
    publish_asks = λ buffer attributes w.
        Holds-mono _ _ _ _ (Unit {0}) (Topic.publish_message fl t buffer attributes w)
          (publish-Publishes fl t buffer attributes w)
          (λ id w' h. Grown-mono (λ q p. (_, p.1, refl)) h.1)
          (λ e w' h. Grown-mono (λ q p. (_, p.1, refl)) h.0);
  }
