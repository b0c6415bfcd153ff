-- ===== src/PullIterator/Tests.antt =====
-- The theorem on pubsuber/src/SubscriptionPullIterator.cpp for an answer with two messages.
use pubsuber.Base.{[], ◌∷◌, text}
use pubsuber.Double.{fixed_point}
use pubsuber.Io.{StatusCode, Reply, Act, pure}
use pubsuber.Message.{MessageImpl}
use pubsuber.ModAckIterator.Requests.{Session}
use pubsuber.PullIterator.{SubscriptionPullIterator}
use pubsuber.Examples.{iterator, world_of, tick}

abbrev puller : SubscriptionPullIterator
puller = record { subscription_name = text "s"; max_message_prefetch = 4 }

abbrev two_messages : Reply
two_messages = record {
  status = record { error_code = StatusCode.ok; error_message = [] };
  response = record {
    ack_deadline_seconds = 0;
    message_ids = [];
    received_messages =
        record { ack_id = text "x"; message = record { payload = text "1"; attributes = [] } }
        ∷ record { ack_id = text "y"; message = record { payload = text "2"; attributes = [] } }
        ∷ [];
  };
}

abbrev waiting : Session fixed_point
waiting = record { it = iterator; world = world_of (two_messages ∷ []) tick }

-- The user's callback keeps the message for later.
abbrev callback : MessageImpl → Act (Session fixed_point) (Unit {0})
callback m = pure tt
