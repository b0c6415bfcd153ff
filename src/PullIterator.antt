-- ===== src/PullIterator.antt =====
-- pubsuber/src/SubscriptionPullIterator.h and SubscriptionPullIterator.cpp: one subscription on the
-- pull thread.
pub mod Delivery
mod Tests
use pubsuber.Base.{ℕ, ◌+◌, ◌-◌, ◌*◌, List, [], ◌∷◌, Bytes, true, text, ◌++◌}
use pubsuber.Double.{Float}
use pubsuber.Io.{
  StatusCode, Exception, ReceivedMessage, Request, Reply, sent, World, Outcome, returned, threw,
  blocked, terminated, Act, ◌>>=◌, ◌>>◌, pure, on_status, read_clock,
}
use pubsuber.Retriable.{default_rpc_timeout, second}
use pubsuber.Message.{MessageImpl}
use pubsuber.Message
use pubsuber.ModAckIterator.{ModAckIterator, min_ack_deadline, add_deadline_watcher}
use pubsuber.ModAckIterator.Requests.{Session}

pub record SubscriptionPullIterator : Type 0 where
  pub subscription_name : Bytes
  pub max_message_prefetch : ℕ

-- The message of the user for a message that came at the clock reading `rt`.
abbrev pub received : SubscriptionPullIterator → ℕ → ReceivedMessage → MessageImpl
received s rt m = Message.create true s.subscription_name m.ack_id m.message rt

-- The messages in `vec`, the last one first.
unfoldable pub collect :
    SubscriptionPullIterator → ℕ → List ReceivedMessage → List MessageImpl → List MessageImpl
collect s rt [] vec = vec
collect s rt (m ∷ ms) vec = collect s rt ms (received s rt m ∷ vec)

module _ (fl : Float) where
  -- `AddDeadlineWatcher` for each message.
  unfoldable pub watch : List ReceivedMessage → ℕ → ModAckIterator fl → ModAckIterator fl
  watch [] next_ack it = it
  watch (m ∷ ms) next_ack it = watch ms next_ack (add_deadline_watcher fl m.ack_id next_ack it)

  -- The second loop: the user's callback is given the last message of `vec`, until there is none.
  unfoldable pub deliver :
      (MessageImpl → Act (Session fl) (Unit {0})) → List MessageImpl → Act (Session fl) (Unit {0})
  deliver callback [] = pure tt
  deliver callback (m ∷ vec) = callback m >> deliver callback vec

  -- What `Pull` does with the answer.
  unfoldable pub on_pulled :
      SubscriptionPullIterator
      → (MessageImpl → Act (Session fl) (Unit {0}))
      → Reply
      → Act (Session fl) (Unit {0})
  unfolding watch collect deliver
  on_pulled s callback reply ss = elim reply.status.error_code [
    | StatusCode.ok ↦
        let (pseudo_now, w) = read_clock ss.world in
        let messages = reply.response.received_messages in
        deliver callback (collect s pseudo_now messages []) (record {
          it = watch messages (pseudo_now + min_ack_deadline * second - second) ss.it;
          world = w;
        })
    | _ ↦
        threw
          (on_status
            (text "Pubsuber: Pull of " ++ s.subscription_name ++ text " failed with error ")
            reply.status)
          ss
  ]

  -- `Pull`. The request is sent once.
  unfoldable pub pull :
      SubscriptionPullIterator
      → (MessageImpl → Act (Session fl) (Unit {0}))
      → Act (Session fl) (Unit {0})
  unfolding on_pulled
  pull s callback ss =
      let request = Request.pull s.subscription_name s.max_message_prefetch in
      elim ss.world.replies [
        | [] ↦ blocked
        | reply ∷ rest ↦ on_pulled s callback reply (record ss {
          world = record ss.world {
            replies = rest;
            log = sent request default_rpc_timeout ∷ ss.world.log;
          };
        })
      ]
