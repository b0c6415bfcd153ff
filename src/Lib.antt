-- ===== src/Lib.antt =====
-- A model of the pubsuber client for Google Cloud Pub/Sub, in C++ (pubsuber/src,
-- pubsuber/include/pubsuber).
--
-- The program: a `Client` makes `Topic`s and `Subscription`s. Their calls of the service go
-- through `make_call`, which retries under three policies. `Receive` of a subscription gives an
-- iterator to each of the two threads of the `Executor`. The pull thread asks for messages, puts
-- their ids under watch and delivers them; a message tells its `ModAckIterator` with `Ack()` or
-- `Nack()` what became of it. The acknowledgement thread sends the pending acknowledgements and
-- deadlines of 0 seconds, and extends the deadlines of the ids that are still watched.
--
-- The files:
-- - Base, Containers: native numbers, lists, byte strings, and the standard containers that the
--   source uses, with their laws.
-- - Io: the service and the environment. A `World` holds the server's answers to come, the
--   readings of the steady clock, and the log of what was sent; an action returns, throws,
--   terminates the program or does not return. Every call takes the world and gives the new one.
-- - Double: floating-point numbers and the random generator, a parameter with named laws, and an
--   instance of it.
-- - ExpoBackoff: ExpoBackoff.cpp. Retriable: Retriable.h, `make_call` with its loop over the
--   answers, and Namer the name of a call.
-- - Algorithms: Algorithms.h, `erase_keys`, `give_me_the_keys`, `split_request_ids`,
--   `populate_ack_ids`.
-- - Distribution: Distribution.h, a histogram of seconds.
-- - ModAckIterator: ModAckIterator.cpp. State holds the record and the operations under the lock,
--   Requests the operations that call the service, Users and Concurrent the same operations while
--   other threads call `Done` and `AddDeadlineWatcher`, the other files what they prove of them.
-- - Message: MessageImpl.cpp. PullIterator: SubscriptionPullIterator.cpp. Topic: TopicImpl.cpp.
-- - ThreadDataBlock and Executor: Executor.h and Executor.cpp; the iterators that both threads
--   share live in a store. Executor.Rounds holds the loops of the threads; what other threads do
--   while one waits is a function. Survival, Idle, Starved, Throws and AllSent are about these
--   loops, Shares about the registration, and Message.Reaches follows a message from its
--   settlement to the service. Subscription: SubscriptionImpl.cpp. Client: Pubsuber.cpp and
--   Pubsuber.h, with the constructor of Executor.cpp. Logging: PSLog.h, over spdlog as a
--   parameter with its documented laws, and an instance of it.
-- - Interfaces: the abstract classes of Pubsuber.h, and the objects that implement them.
--   ExampleClient: example/client.cpp, its job over the abstract classes, and Program its `main`
--   over the classes of the library; Dry and Fails are about the end of its messages.
-- - Examples and the modules Tests: concrete environments at which the results are applied.
--
-- Numbers: durations and clock readings are counts of nanoseconds, milliseconds or seconds, as
-- the definitions say; they are not bounded, while 64-bit counts and 32-bit sizes and counters
-- wrap around. A reading of the steady clock is a function of the number of the reading.
--
-- Exceptions: a value, which says whether it is a `pubsuber::Exception`. A user's callback may
-- throw one that is not; the handlers of the threads do not catch it, and it terminates the
-- program.
--
-- Fuel: `drain`, the loop over `split_request_ids`, is given one round more than there are ids.
-- Each round takes at least one id if the first fits in a request of its own, so the rounds do
-- not run out; if they do, the call counts as one that does not return. The loop of `make_call`
-- goes through the server's answers to come; a call for which none is left has not returned. The
-- loops of the threads are given a number of rounds.
--
-- Order: the elements of a container are visited in the order of a list, which stands for the
-- order of iteration that the standard leaves open. An operation under a mutex is one step;
-- `Done`, which also records a time in the histogram outside of its lock, is one step too. While
-- the acknowledgement thread runs `ProcessModAcks`, the other threads' calls come from a
-- schedule, some before each request and some before the histogram is read; a call of the service
-- reads nothing that they write, and the reading of the histogram is one step.
--
-- Not modelled: the lines of the log, the credentials, what the user's metric sink does with the
-- sizes that it is given, generated code, and mocks.
pub mod Base
pub mod Containers
pub mod Io
pub mod Double
pub mod ExpoBackoff
pub mod Retriable
pub mod Algorithms
pub mod Distribution
pub mod ModAckIterator
pub mod Logging
pub mod Message
pub mod Topic
pub mod ThreadDataBlock
pub mod Executor
pub mod Subscription
pub mod Client
pub mod PullIterator
pub mod Interfaces
pub mod ExampleClient
pub mod Examples
