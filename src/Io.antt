-- ===== src/Io.antt =====
-- What the client exchanges with its environment: exceptions (pubsuber/include/pubsuber/Pubsuber.h),
-- the requests and answers of the Pub/Sub service, the clocks, and the actions over them.
pub mod Rules
use pubsuber.Base.{ℕ, suc, ◌+◌, List, [], ◌∷◌, Bytes, Bool, true, false, ◌≡◌, ◌⊎◌}
use pubsuber.Containers.{Map}

-- `grpc::StatusCode`: the enumerators that the source names, and any other one.
pub data StatusCode : Type 0 where
  ok not_found deadline_exceeded unavailable : StatusCode
  other : ℕ → StatusCode

-- `grpc::Status`.
pub record Status : Type 0 where
  pub error_code : StatusCode
  pub error_message : Bytes

-- The text of an exception: a fixed text, a text followed by the code and the message of a status,
-- or the text of a call that was given up, with the two limits that it prints. `foreign` is an exception
-- that is no `pubsuber::Exception`: a callback of the user may throw one.
pub data Reason : Type 0 where
  message : Bytes → Reason
  failed : Bytes → Status → Reason
  gave_up : ℕ → ℕ → Reason
  foreign : Reason

-- `Exception::Code()`: `kUninitializedCode`, or the code of a status.
pub data ErrorCode : Type 0 where
  uninitialized : ErrorCode
  from_status : StatusCode → ErrorCode

-- `class Exception`, or an exception of another class.
pub record Exception : Type 0 where
  pub what : Reason
  pub code : ErrorCode

-- Whether `catch (Exception &e)` catches it.
abbrev pub is_caught : Exception → Bool
is_caught e = elim e.what [ foreign ↦ false | _ ↦ true ]

pub record PubsubMessage : Type 0 where
  pub payload : Bytes
  pub attributes : Map Bytes

pub record ReceivedMessage : Type 0 where
  pub ack_id : Bytes
  pub message : PubsubMessage

-- The requests that the source sends, each with the fields that it sets.
pub data Request : Type 0 where
  get_topic create_topic delete_topic get_subscription delete_subscription : Bytes → Request
  publish : Bytes → PubsubMessage → Request
  create_subscription : Bytes → Bytes → ℕ → Request
  pull : Bytes → ℕ → Request
  acknowledge : Bytes → List Bytes → Request
  modify_ack_deadline : Bytes → List Bytes → ℕ → Request

-- The fields of the response messages that the source reads.
pub record Response : Type 0 where
  pub ack_deadline_seconds : ℕ
  pub message_ids : List Bytes
  pub received_messages : List ReceivedMessage

pub record Reply : Type 0 where
  pub status : Status
  pub response : Response

-- What the client did: a call with its timeout in seconds, or a sleep in milliseconds.
pub data Event : Type 0 where
  sent : Request → ℕ → Event
  slept : ℕ → Event

-- The environment of a run. `replies` are the server's answers to come, `clock n` is the n-th reading
-- of the steady clock in nanoseconds, `links` are the results of `WaitForConnected` to come (when
-- they run out the channel does not connect), `seed` numbers the random streams that were opened,
-- and `log` is what was done, the last first.
pub record World : Type 0 where
  pub replies : List Reply
  pub clock : ℕ → ℕ
  pub reads : ℕ
  pub links : List Bool
  pub seed : ℕ
  pub log : List Event

-- How a call ends. `blocked` is a call that has not returned: its server has not answered yet, or its
-- loop goes on. `terminated` is `std::terminate`, which an exception out of a `noexcept` function
-- calls, or one that leaves a thread.
pub data Outcome (S A : Type 0) : Type 0 where
  returned : A → S → Outcome S A
  threw : Exception → S → Outcome S A
  blocked terminated : Outcome S A

-- An action on the state `S`. What was written before an exception stays written.
abbrev pub Act : Type 0 → Type 0 → Type 0
Act S A = S → Outcome S A

infixl 5 ◌>>=◌ ◌>>◌
abbrev pub ◌>>=◌ : {S A B : Type 0} → Act S A → (A → Act S B) → Act S B
◌>>=◌ m f s = elim (m s) [
  | returned a s' ↦ f a s'
  | threw e s' ↦ threw e s'
  | blocked ↦ blocked
  | terminated ↦ terminated
]

abbrev pub ◌>>◌ : {S B : Type 0} → Act S (Unit {0}) → Act S B → Act S B
m >> k = m >>= λ _. k

abbrev pub pure : {S A : Type 0} → A → Act S A
pure a s = returned a s

abbrev pub throw : {S A : Type 0} → Exception → Act S A
throw e s = threw e s

-- An exception with no code of its own, and one that carries the code of a status.
abbrev pub plain : Bytes → Exception
plain t = record { what = message t; code = uninitialized }

abbrev pub on_status : Bytes → Status → Exception
on_status t s = record { what = failed t s; code = from_status s.error_code }

-- `std::chrono::steady_clock::now()`.
abbrev pub read_clock : World → ℕ × World
read_clock w = (w.clock w.reads, record w { reads = w.reads + 1 })

abbrev first_link : List Bool → Bool
first_link [] = false
first_link (l ∷ ls) = l

abbrev rest_links : List Bool → List Bool
rest_links [] = []
rest_links (l ∷ ls) = ls

-- `Trimpl::EnsureConnected`: whether the channel connects within five seconds.
unfoldable pub ensure_connected : Act World Bool
ensure_connected w = returned (first_link w.links) (record w { links = rest_links w.links })

-- The call ends with a result and a state in `P`, or with an exception and a state in `Q`, or it does
-- not end and `B` holds.
abbrev pub Holds :
    {S A : Type 0} → (A → S → Type 0) → (Exception → S → Type 0) → Type 0 → Outcome S A → Type 0
Holds P Q B (returned a s) = P a s
Holds P Q B (threw e s) = Q e s
Holds P Q B _ = B

-- The call ends: with a result and a state in `P`, or with an exception and a state in `Q`.
abbrev pub Ends :
    {S A : Type 0} → (A → S → Type 0) → (Exception → S → Type 0) → Outcome S A → Type 0
Ends P Q = Holds P Q ⊥

-- If the call ends, it ends so.
abbrev pub After :
    {S A : Type 0} → (A → S → Type 0) → (Exception → S → Type 0) → Outcome S A → Type 0
After P Q = Holds P Q (Unit {0})

-- The number of calls in a log.
abbrev pub sends : List Event → ℕ
sends [] = 0
sends (sent request timeout ∷ log) = suc (sends log)
sends (slept ms ∷ log) = sends log

-- The request was sent at some time in the log.
abbrev pub Requested : Request → List Event → Type 0
Requested q [] = ⊥
Requested q (sent r timeout ∷ log) = (r ≡ q) ⊎ Requested q log
Requested q (slept ms ∷ log) = Requested q log
