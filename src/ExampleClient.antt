-- ===== src/ExampleClient.antt =====
-- example/client.cpp: a program that publishes messages and receives them, written over the abstract
-- classes of the library. Its sleeps are left out, and its lines of the log.
pub mod Dry
pub mod Program
pub mod Fails
mod Tests
use pubsuber.Base.{
  ℕ, zero, suc, ◌+◌, ◌/◌, ◌%◌, List, [], ◌∷◌, ◌++◌, Bytes, text, Bool, true, false, ltb, ◌==◌,
  if◌then◌else◌,
}
use pubsuber.Containers.{Map}
use pubsuber.Io.{Exception, Outcome, returned, threw, blocked, terminated, Act, ◌>>=◌, ◌>>◌, pure}
use pubsuber.Interfaces.{Message, Topic, Subscription}

-- `std::to_string`: the digits of a number, of which there are no more than `fuel + 1`.
unfoldable pub digits : ℕ → ℕ → Bytes
digits zero n = (48 + n % 10) ∷ []
digits (suc fuel) n =
    let rest = digits fuel (n / 10) in
    if ltb n 10 then (48 + n % 10) ∷ [] else rest ++ ((48 + n % 10) ∷ [])

unfoldable pub to_string : ℕ → Bytes
unfolding digits
to_string n = digits n n

-- The list of messages without its last element, and that element.
unfoldable pub pop_back : {A : Type 0} → A → List A → A × List A
pop_back m [] = (m, [])
pop_back m (n ∷ ms) = let (last, rest) = pop_back n ms in (last, m ∷ rest)

-- The program's state over that of the library. `arrivals` are the messages that the callback pushes
-- before each access of the main thread to the list, and `printed` is what was written, the last first.
pub record Job (S : Type 0) : Type 0 where
  pub state : S
  pub messages : List (Message S)
  pub arrivals : List (List (Message S))
  pub printed : List Bool

module _ {S Callback : Type 0} (topic : Topic S) (subscription : Subscription S Callback)
    (push : Callback) where
  abbrev in_job : {A : Type 0} → Job S → Outcome S A → Outcome (Job S) A
  in_job j (returned a s) = returned a (record j { state = s })
  in_job j (threw e s) = threw e (record j { state = s })
  in_job j blocked = blocked
  in_job j terminated = terminated

  abbrev pub call : {A : Type 0} → Act S A → Act (Job S) A
  call m j = in_job j (m j.state)

  abbrev pub unless : Bool → Act (Job S) (Unit {0}) → Act (Job S) (Unit {0})
  unless b m = if b then pure tt else m

  abbrev pub attributes : Bytes → Map Bytes
  attributes n = (text "key1", text "KKK1" ++ n) ∷ (text "key2", text "KKK2") ∷ []

  -- Up to the loop.
  unfoldable pub prepare : Act (Job S) (Unit {0})
  prepare = do
    topic_exists ← call topic.exists
    unless topic_exists (call topic.create)
    call subscription.delete
    subscription_exists ← call subscription.exists
    unless subscription_exists
        (call (subscription.create (record { full_topic_name = topic.name; ack_deadline = 10 })))
    id ← call (topic.publish_message (text "My message") (attributes []))
    call (subscription.receive push)

  -- The callback has its turn.
  unfoldable pub arrive : Job S → Job S
  arrive j = elim j.arrivals [
    | [] ↦ j
    | ms ∷ rest ↦ record j { messages = j.messages ++ ms; arrivals = rest }
  ]

  -- Nack or Ack of the last message, which is removed; `back()` of an empty list is undefined.
  unfoldable pub settle_back : ℕ → List (Message S) → Act (Job S) (Unit {0})
  unfolding pop_back
  settle_back count [] j = terminated
  settle_back count (m ∷ ms) j =
      let (last, rest) = pop_back m ms in
      (call (if count % 2 == 0 then last.nack else last.ack) >> λ j'.
      returned tt (record j' { messages = rest }))
        j

  unfoldable pub settle_one : ℕ → Act (Job S) (Unit {0})
  unfolding arrive settle_back
  settle_one count j = let j' = arrive j in settle_back count j'.messages j'

  -- The body of the loop, after `count++`.
  unfoldable pub body : ℕ → Act (Job S) (Unit {0})
  unfolding settle_one to_string
  body count = do
    id ← call (
        topic.publish_message (text "My message" ++ to_string count) (attributes (to_string count)))
    if ltb 10 count then settle_one count else pure tt

  -- `while (count++ < limit)`, with `left` rounds to go.
  unfoldable pub loop : ℕ → ℕ → Act (Job S) (Unit {0})
  unfolding body
  loop zero count = pure tt
  loop (suc left) count = body (suc count) >> loop left (suc count)

  unfoldable pub ack_all : List (Message S) → Act (Job S) (Unit {0})
  ack_all [] = pure tt
  ack_all (m ∷ ms) = call m.ack >> ack_all ms

  abbrev pub print : Act S Bool → Act (Job S) (Unit {0})
  print m = call m >>= λ b j. returned tt (record j { printed = b ∷ j.printed })

  -- After the loop.
  unfoldable pub finish : Act (Job S) (Unit {0})
  unfolding ack_all arrive
  finish = do
    call subscription.stop
    λ j.
        let j' = arrive j in
        (ack_all j'.messages >> λ j''. returned tt (record j'' { messages = [] })) j'
    call subscription.delete
    print subscription.exists
    call topic.delete
    print topic.exists
    call subscription.delete
    print subscription.exists
    call topic.delete
    print topic.exists

  -- The exit code of the program.
  unfoldable pub exit_code : Outcome (Job S) (Unit {0}) → Outcome (Job S) ℕ
  exit_code (returned u j) = returned 0 j
  exit_code (threw e j) = returned 1 j
  exit_code blocked = blocked
  exit_code terminated = terminated

  -- `DoTheJob` once the client is created.
  unfoldable pub do_the_job : ℕ → Act (Job S) ℕ
  unfolding exit_code prepare loop finish
  do_the_job limit j = exit_code ((prepare >> (loop limit 0 >> finish)) j)
