-- ===== src/PullIterator/Delivery.antt =====
-- What `Pull` of pubsuber/src/SubscriptionPullIterator.cpp promises the user: a message is watched
-- before it is delivered.
use pubsuber.Base.{ℕ, ◌+◌, ◌*◌, ◌≡◌, List, [], ◌∷◌, ◌++◌, Bytes, true, some, arith}
use pubsuber.Containers.{lookup}
use pubsuber.Double.{Float}
use pubsuber.Io.{
  ReceivedMessage, Request, Reply, sent, World, Act, Exception, Outcome, returned, threw, blocked,
  terminated, read_clock,
}
use pubsuber.Retriable.{default_rpc_timeout, second}
use pubsuber.Message.{MessageImpl}
use pubsuber.ModAckIterator.{ModAckIterator, add_deadline_watcher}
use pubsuber.ModAckIterator.Requests.{Session}
use pubsuber.PullIterator.{SubscriptionPullIterator, received, watch, pull}

-- The messages of an answer as the user is given them.
abbrev pub backwards : SubscriptionPullIterator → ℕ → List ReceivedMessage → List MessageImpl
backwards s rt [] = []
backwards s rt (m ∷ ms) = backwards s rt ms ++ (received s rt m ∷ [])

module _ (fl : Float) where
  -- The id has the deadline.
  abbrev pub IsWatched : ℕ → ModAckIterator fl → Bytes → Type 0
  IsWatched next_ack it k = lookup k it.input_ack_ids ≡ some (record { next_ack = next_ack })

  watch-executor :
      (ms : List ReceivedMessage) (next : ℕ) (it : ModAckIterator fl)
      → it.has_executor ≡ true
      → (watch fl ms next it).has_executor ≡ true
  unfolding watch add_deadline_watcher
  watch-executor [] next it e = e
  watch-executor (m ∷ ms) next it e = watch-executor ms next _ (ground arith)

  -- The request is sent.
  abbrev asked : SubscriptionPullIterator → List Reply → World → World
  asked s rest w = record w {
    replies = rest;
    log =
        sent (Request.pull s.subscription_name s.max_message_prefetch) default_rpc_timeout ∷ w.log;
  }

  -- What the callbacks start from.
  abbrev watched : List ReceivedMessage → Session fl → Session fl
  watched ms ss = record {
    it = watch fl ms ((read_clock ss.world).0 + 9 * second) ss.it;
    world = (read_clock ss.world).1;
  }

  -- How calling back for each of some messages, one after the other, goes from a state: every call
  -- begins where the one before it returned, and the first one that does not return ends it.
  pub data Delivers (callback : MessageImpl → Act (Session fl) (Unit {0}))
      : List MessageImpl → Session fl → Outcome (Session fl) (Unit {0}) → Type 0 where
    all_delivered : (s : Session fl) → Delivers callback [] s (returned tt s)
    delivered :
        (m : MessageImpl) (ms : List MessageImpl) (s s' : Session fl)
        (o : Outcome (Session fl) (Unit {0}))
        → callback m s ≡ returned tt s'
        → Delivers callback ms s' o
        → Delivers callback (m ∷ ms) s o
    failed :
        (m : MessageImpl) (ms : List MessageImpl) (s s' : Session fl) (e : Exception)
        → callback m s ≡ threw e s'
        → Delivers callback (m ∷ ms) s (threw e s')
    stuck :
        (m : MessageImpl) (ms : List MessageImpl) (s : Session fl)
        → callback m s ≡ blocked
        → Delivers callback (m ∷ ms) s blocked
    ended :
        (m : MessageImpl) (ms : List MessageImpl) (s : Session fl)
        → callback m s ≡ terminated
        → Delivers callback (m ∷ ms) s terminated
