-- ===== src/Interfaces.antt =====
-- The abstract classes of pubsuber/include/pubsuber/Pubsuber.h. An object is a record of its methods over
-- the state that they work on.
pub mod Objects
mod Tests
use pubsuber.Base.{ℕ, ◌≡◌, Bytes, Bool}
use pubsuber.Containers.{Map}
use pubsuber.Io.{
  Exception, Request, get_topic, create_topic, delete_topic, publish, PubsubMessage, World, Outcome,
  Act, After,
}
use pubsuber.Retriable.Spends.{Grown}

-- `Message`.
pub record Message (S : Type 0) : Type 0 where
  pub payload : S → Bytes
  pub attributes : S → Map Bytes
  pub message_subscription : S → Bytes
  pub ack : Act S (Unit {0})
  pub nack : Act S (Unit {0})

-- `Topic`.
pub record Topic (S : Type 0) : Type 0 where
  pub id : Bytes
  pub name : Bytes
  pub exists : Act S Bool
  pub create : Act S (Unit {0})
  pub delete : Act S (Unit {0})
  pub publish_message : Bytes → Map Bytes → Act S Bytes

-- `Subscription::CreationOptions`, the deadline in seconds.
pub record CreationOptions : Type 0 where
  pub full_topic_name : Bytes
  pub ack_deadline : ℕ

-- `Subscription`.
pub record Subscription (S Callback : Type 0) : Type 0 where
  pub id : Bytes
  pub name : Bytes
  pub exists : Act S Bool
  pub create : CreationOptions → Act S (Unit {0})
  pub delete : Act S (Unit {0})
  pub receive : Callback → Act S (Unit {0})
  pub stop : Act S (Unit {0})

module _ {S : Type 0} (world : S → World) where
  -- Requests in `P` are all that a method sends, whether it returns or throws.
  abbrev pub Asks : {A : Type 0} → (Request → Type 0) → Act S A → Type 0
  Asks P m =
      (s : S)
      → After (λ a s'. Grown P (world s) (world s')) (λ e s'. Grown P (world s) (world s')) (m s)

  -- What the comments on `Topic` promise: each method asks the service for its own topic only, and for
  -- what it is named after.
  pub record IsTopic (t : Topic S) : Type 0 where
    pub exists_asks : Asks (λ q. get_topic t.name ≡ q) t.exists
    pub create_asks : Asks (λ q. create_topic t.name ≡ q) t.create
    pub delete_asks : Asks (λ q. delete_topic t.name ≡ q) t.delete
    pub publish_asks :
        (buffer : Bytes) (attributes : Map Bytes)
        → Asks
            (λ q. (m : PubsubMessage) × (q ≡ publish t.name m) × (m.payload ≡ buffer))
            (t.publish_message buffer attributes)
