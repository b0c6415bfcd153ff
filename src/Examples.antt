-- ===== src/Examples.antt =====
-- The environment and the policies that the examples share.
use pubsuber.Base.{ℕ, List, [], ◌*◌, ◌∷◌, text, true}
use pubsuber.Double.{fixed_point}
use pubsuber.Io.{StatusCode, Response, Reply, World}
use pubsuber.Retriable.{Policies}
use pubsuber.ModAckIterator.{ModAckIterator}
use pubsuber.ModAckIterator.Requests.{Session}

abbrev pub empty_response : Response
empty_response = record { ack_deadline_seconds = 0; message_ids = []; received_messages = [] }

abbrev pub answer : StatusCode → Reply
answer code = record {
  status = record { error_code = code; error_message = [] };
  response = empty_response;
}

-- The clock goes on by `tick` nanoseconds between two readings.
abbrev pub world_of : List Reply → ℕ → World
world_of replies tick = record {
  replies = replies;
  clock = λ n. n * tick;
  reads = 0;
  links = [];
  seed = 0;
  log = [];
}

abbrev pub two_retries : Policies fixed_point
two_retries = record {
  count_policy = record { count = 2 };
  time_policy = record { interval = 15 };
  backoff_policy = record { initial_delay = 250; max_delay = 3000; scale = 2_718_281 };
}

abbrev pub tick : ℕ
tick = 1_000_000

-- One id waits for an acknowledgement, one for a deadline of 0, and two are watched.
abbrev pub iterator : ModAckIterator fixed_point
iterator = record {
  subscription_name = text "s";
  grace_period = 5;
  ack_dist = record { hist = 0 ∷ 3 ∷ 0 ∷ [] };
  has_executor = true;
  policies = two_retries;
  input_ack_ids = [];
  pending_ack_ids = text "a" ∷ [];
  pending_nack_ids = text "b" ∷ [];
  keep_alive_ack_ids =
      (text "a", record { next_ack = 9_000_000_000 })
      ∷ (text "c", record { next_ack = 4_000_000_000 })
      ∷ [];
}

abbrev pub ok_answers : List Reply
ok_answers =
    answer StatusCode.ok
    ∷ answer StatusCode.ok
    ∷ answer StatusCode.ok
    ∷ answer StatusCode.ok
    ∷ answer StatusCode.ok
    ∷ answer StatusCode.ok
    ∷ answer StatusCode.ok
    ∷ answer StatusCode.ok
    ∷ answer StatusCode.ok
    ∷ answer StatusCode.ok
    ∷ answer StatusCode.ok
    ∷ answer StatusCode.ok
    ∷ []

abbrev pub session : Session fixed_point
session = record { it = iterator; world = world_of ok_answers tick }
