-- ===== src/ExampleClient/Dry.antt =====
-- The loop of example/client.cpp where messages come too late or not at all.
use pubsuber.Base.{
  ℕ, zero, suc, ◌+◌, ◌<◌, ◌%◌, ◌≡◌, refl, ap, List, [], ◌∷◌, ◌++◌, Bytes, text, Bool, true, false,
  ltb, ◌==◌, if◌then◌else◌, length, length-append, max, arith,
}
use pubsuber.Io.{Outcome, returned, threw, blocked, terminated, Act, pure, Holds}
use pubsuber.Io.Rules.{Holds-bind, Holds-mono}
use pubsuber.Interfaces.{Message, Topic, Subscription}
use pubsuber.ExampleClient.{
  Job, pop_back, to_string, call, in_job, attributes, arrive, settle_back, settle_one, body, loop,
}

length-pop_back : {A : Type 0} (m : A) (ms : List A) → length (pop_back m ms).1 ≡ length ms
unfolding pop_back
length-pop_back m [] = refl
length-pop_back m (n ∷ ms) = omega (arith, length-pop_back n ms)

-- The number of the messages in all turns.
abbrev pub arriving : {A : Type 0} → List (List A) → ℕ
arriving [] = 0
arriving (ms ∷ rest) = length ms + arriving rest

module _ {S Callback : Type 0} (topic : Topic S) (subscription : Subscription S Callback)
    (push : Callback) where
  -- The messages that are there or are to come.
  abbrev pub supply : Job S → ℕ
  supply j = length j.messages + arriving j.arrivals

  -- They are fewer than the rounds after the tenth one.
  abbrev IsShort : ℕ → ℕ → Job S → Type 0
  IsShort left count j = supply j + max count 10 < left + count

  -- A call of the library leaves the program's own variables.
  pub call-SameJob :
      {A : Type 0} (m : Act S A) (P : Job S → Type 0) (j : Job S)
      → ((s : S) → P (record j { state = s }))
      → Holds (λ a j'. P j') (λ e j'. Unit {0}) (Unit {0}) (call topic subscription push m j)
  call-SameJob {A} m P j h = go (m j.state)
    where
      go :
          (o : Outcome S A)
          → Holds (λ a j'. P j') (λ e j'. Unit {0}) (Unit {0}) (in_job topic subscription push j o)
      go (returned a s) = h s
      go (threw e s) = tt
      go blocked = tt
      go terminated = tt

  arrive-supply : (j : Job S) → supply (arrive topic subscription push j) ≡ supply j
  unfolding arrive
  arrive-supply j = go j.arrivals refl
    where
      go :
          (arrivals : List (List (Message S)))
          → j.arrivals ≡ arrivals
          → supply (elim arrivals [
            | [] ↦ j
            | ms ∷ rest ↦ record j { messages = j.messages ++ ms; arrivals = rest }
          ])
            ≡ supply j
      go [] e = refl
      go (ms ∷ rest) e = omega (arith, length-append j.messages ms, ap arriving e)

  settle_back-IsShort :
      (left count : ℕ) (ms : List (Message S)) (j : Job S)
      → length ms + arriving j.arrivals + count < suc left + count
      → Holds
          (λ u j'. supply j' + count < left + count)
          (λ e j'. Unit {0})
          (Unit {0})
          (settle_back topic subscription push count ms j)
  unfolding settle_back
  settle_back-IsShort left count [] j h = tt
  settle_back-IsShort left count (m ∷ ms) j h =
      let last : Message S = (pop_back m ms).0 in
      let rest : List (Message S) = (pop_back m ms).1 in
      Holds-bind (λ u j'. arriving j'.arrivals ≡ arriving j.arrivals)
        (λ u j'. supply j' + count < left + count) (λ e j'. Unit {0}) (Unit {0})
        (call topic subscription push (if count % 2 == 0 then last.nack else last.ack))
        (λ u j'. returned tt (record j' { messages = rest })) j
        (call-SameJob (if count % 2 == 0 then last.nack else last.ack)
          (λ j'. arriving j'.arrivals ≡ arriving j.arrivals) j (λ s. refl))
        (λ u j' same. omega (arith, same, h, length-pop_back m ms))

  settle_one-IsShort :
      (left count : ℕ) (j : Job S)
      → supply j + count < suc left + count
      → Holds
          (λ u j'. supply j' + count < left + count)
          (λ e j'. Unit {0})
          (Unit {0})
          (settle_one topic subscription push count j)
  unfolding settle_one
  settle_one-IsShort left count j h =
      let j' : Job S = arrive topic subscription push j in
      settle_back-IsShort left count j'.messages j' (omega (arith, arrive-supply j, h))

  body-IsShort :
      (left count : ℕ) (j : Job S)
      → IsShort (suc left) count j
      → Holds
          (λ u j'. IsShort left (suc count) j')
          (λ e j'. Unit {0})
          (Unit {0})
          (body topic subscription push (suc count) j)
  unfolding body
  body-IsShort left count j h =
      let number : Bytes = to_string (suc count) in
      let send : Act S Bytes =
        topic.publish_message (text "My message" ++ number)
          (attributes topic subscription push number) in
      Holds-bind (λ id j'. IsShort (suc left) count j') (λ u j'. IsShort left (suc count) j')
        (λ e j'. Unit {0}) (Unit {0}) (call topic subscription push send)
        (λ id.
          if ltb 10 (suc count) then settle_one topic subscription push (suc count) else pure tt)
        j (call-SameJob send (λ j'. IsShort (suc left) count j') j (λ s. h))
        (λ id j' short. by_count (ltb 10 (suc count)) refl j' short)
    where
      by_count :
          (b : Bool)
          → ltb 10 (suc count) ≡ b
          → (j' : Job S) → IsShort (suc left) count j'
          → Holds
              (λ u j''. IsShort left (suc count) j'')
              (λ e j''. Unit {0})
              (Unit {0})
              ((if b then settle_one topic subscription push (suc count) else pure tt) j')
      by_count true e j' short =
          Holds-mono (λ u j''. supply j'' + suc count < left + suc count) _ (λ e j''. Unit {0}) _
            (Unit {0}) (settle_one topic subscription push (suc count) j')
            (settle_one-IsShort left (suc count) j' (ground arith)) (λ u j'' k. ground arith)
            (λ x j'' u. tt)
      by_count false e j' short = ground arith

  -- If fewer messages are there and arrive in all than the loop has rounds after its tenth, then the loop
  -- does not return, whatever the methods of the topic, the subscription and the messages do.
  pub loop_runs_dry :
      (left count : ℕ) (j : Job S)
      → supply j + max count 10 < left + count
      → Holds (λ u j'. ⊥) (λ e j'. Unit {0}) (Unit {0}) (loop topic subscription push left count j)
  unfolding loop
  loop_runs_dry zero count j h = absurd (omega (arith, h))
  loop_runs_dry (suc left) count j h =
      Holds-bind (λ u j'. IsShort left (suc count) j') (λ u j'. ⊥) (λ e j'. Unit {0}) (Unit {0})
        (body topic subscription push (suc count))
        (λ u. loop topic subscription push left (suc count)) j (body-IsShort left count j h)
        (λ u j' short. loop_runs_dry left (suc count) j' short)
