-- ===== src/ExampleClient/Fails.antt =====
-- The exit code of example/client.cpp where its loop finds no message to settle.
use pubsuber.Base.{
  ℕ, ◌+◌, ◌<◌, ◌≡◌, ◌≢◌, sym, subst, List, [], ◌∷◌, Bytes, text, Bool, true, false, Option, some,
  arith,
}
use pubsuber.Double.{Float}
use pubsuber.Io.{World, Outcome, returned, threw, blocked, terminated, Act, ◌>>=◌, ◌>>◌, Holds}
use pubsuber.Io.Rules.{Holds-bind}
use pubsuber.Logging.{Spdlog, Logged, logged, duplicate, null_logger}
use pubsuber.Topic.{TopicImpl}
use pubsuber.Subscription.{Shared, SubscriptionImpl}
use pubsuber.Client.{Client, Process, Creation, ended, logger_refused, logger_missing, get_topic}
use pubsuber.Interfaces.{Message, Topic, Subscription}
use pubsuber.Interfaces.Objects.{shared_topic, subscription_of}
use pubsuber.ExampleClient.{Job, call, unless, prepare, loop, finish, exit_code, do_the_job}
use pubsuber.ExampleClient.Dry.{arriving, supply, call-SameJob, loop_runs_dry}
use pubsuber.ExampleClient.Program.{
  exited, on_exit, run_job, with_subscription, with_topic, with_logger, with_creation, with_limit,
  shared, new_job, atoi, main,
}

module _ {S Callback : Type 0} (topic : Topic S) (subscription : Subscription S Callback)
    (push : Callback) (limit : ℕ) where
  -- There are rounds that find no message.
  abbrev IsShort : Job S → Type 0
  IsShort j = supply topic subscription push j + 10 < limit

  abbrev KeepsShort : {A : Type 0} → Act (Job S) A → Type 0
  KeepsShort m =
      (j : Job S) → IsShort j → Holds (λ a j'. IsShort j') (λ e j'. Unit {0}) (Unit {0}) (m j)

  then-KeepsShort :
      {A B : Type 0} (m : Act (Job S) A) (k : A → Act (Job S) B)
      → KeepsShort m
      → ((a : A) → KeepsShort (k a))
      → KeepsShort (m >>= k)
  then-KeepsShort m k h f j short =
      Holds-bind (λ a j'. IsShort j') (λ b j'. IsShort j') (λ e j'. Unit {0}) (Unit {0}) m k j
        (h j short) (λ a j' short'. f a j' short')

  call-KeepsShort : {A : Type 0} (m : Act S A) → KeepsShort (call topic subscription push m)
  call-KeepsShort m j short = call-SameJob topic subscription push m IsShort j (λ s. short)

  unless-KeepsShort :
      (b : Bool) (m : Act (Job S) (Unit {0}))
      → KeepsShort m
      → KeepsShort (unless topic subscription push b m)
  unless-KeepsShort true m h j short = short
  unless-KeepsShort false m h j short = h j short

  prepare-KeepsShort : KeepsShort (prepare topic subscription push)
  unfolding prepare
  prepare-KeepsShort = then-KeepsShort _ _ (call-KeepsShort topic.exists) (λ b.
      then-KeepsShort _ _ (unless-KeepsShort b _ (call-KeepsShort topic.create)) (λ u.
        then-KeepsShort _ _ (call-KeepsShort subscription.delete) (λ u'.
          then-KeepsShort _ _ (call-KeepsShort subscription.exists) (λ b'.
            then-KeepsShort _ _ (unless-KeepsShort b' _ (call-KeepsShort _)) (λ u''.
              then-KeepsShort _ _ (call-KeepsShort _)
                (λ id. call-KeepsShort (subscription.receive push)))))))

  exit_code-one :
      (o : Outcome (Job S) (Unit {0}))
      → Holds (λ u j. ⊥) (λ e j. Unit {0}) (Unit {0}) o
      → Holds
          (λ code j. code ≢ 0)
          (λ e j. Unit {0})
          (Unit {0})
          (exit_code topic subscription push o)
  unfolding exit_code
  exit_code-one (returned u j) h = absurd h
  exit_code-one (threw e j) h = λ k. absurd (omega (arith, k))
  exit_code-one blocked h = tt
  exit_code-one terminated h = tt

  pub do_the_job-fails :
      (j : Job S)
      → IsShort j
      → Holds
          (λ code j'. code ≢ 0)
          (λ e j'. Unit {0})
          (Unit {0})
          (do_the_job topic subscription push limit j)
  unfolding do_the_job
  do_the_job-fails j short = exit_code-one _ (
      Holds-bind (λ u j'. IsShort j') (λ u j'. ⊥) (λ e j'. Unit {0}) (Unit {0})
        (prepare topic subscription push)
        (λ u. loop topic subscription push limit 0 >> finish topic subscription push) j
        (prepare-KeepsShort j short)
        (λ u j' short'.
          Holds-bind (λ u j'. ⊥) (λ u j'. ⊥) (λ e j'. Unit {0}) (Unit {0})
            (loop topic subscription push limit 0) (λ u. finish topic subscription push) j'
            (loop_runs_dry topic subscription push limit 0 j' (ground arith))
            (λ u' j'' no. absurd no)))

module _ (fl : Float) (lg : Spdlog) {Callback : Type 0} (push : Callback) (raw : List ℕ)
    (arrivals : List (List (Message (Shared fl Callback)))) (limit : ℕ)
    (late : arriving arrivals + 10 < limit) (printed : List Bool) where
  on_exit-fails :
      (o : Outcome (Job (Shared fl Callback)) ℕ)
      → Holds (λ code j. code ≢ 0) (λ e j. Unit {0}) (Unit {0}) o
      → on_exit fl lg push raw arrivals o ≢ exited 0 printed
  unfolding on_exit
  on_exit-fails (returned code j) h e = h (cc)
  on_exit-fails (threw x j) h e = cc
  on_exit-fails blocked h e = cc
  on_exit-fails terminated h e = cc

  run_job-fails :
      (client : Client fl lg Callback) (w : World) (t : TopicImpl fl)
      (s : SubscriptionImpl fl Callback)
      → run_job fl lg push raw arrivals limit client w t s ≢ exited 0 printed
  unfolding run_job
  run_job-fails client w t s =
      let state : Shared fl Callback = shared fl lg push raw arrivals client w s in
      on_exit-fails _ (
        do_the_job-fails (shared_topic fl Callback t) (subscription_of fl Callback state raw) push
          limit (new_job fl lg push raw arrivals state) (omega (arith, late)))

  with_subscription-fails :
      (client : Client fl lg Callback) (w : World) (t : TopicImpl fl)
      (o : Outcome (Client fl lg Callback) (SubscriptionImpl fl Callback))
      → with_subscription fl lg push raw arrivals limit client w t o ≢ exited 0 printed
  unfolding with_subscription
  with_subscription-fails client w t (returned s c) = run_job-fails client w t s
  with_subscription-fails client w t (threw x c) = λ e. cc
  with_subscription-fails client w t blocked = λ e. cc
  with_subscription-fails client w t terminated = λ e. cc

  with_topic-fails :
      (client : Client fl lg Callback) (w : World)
      (o : Outcome (Client fl lg Callback) (TopicImpl fl))
      → with_topic fl lg push raw arrivals limit client w o ≢ exited 0 printed
  unfolding with_topic
  with_topic-fails client w (returned t c) = with_subscription-fails client w t _
  with_topic-fails client w (threw x c) = λ e. cc
  with_topic-fails client w blocked = λ e. cc
  with_topic-fails client w terminated = λ e. cc

  with_logger-fails :
      (client : Client fl lg Callback) (w : World) (l : Logged lg.Registry)
      → with_logger fl lg push raw arrivals limit client w l ≢ exited 0 printed
  unfolding with_logger
  with_logger-fails client w (logged r) =
      with_topic-fails client w (get_topic fl lg Callback (text "mwapi-task%1") [] client)
  with_logger-fails client w duplicate = λ e. cc
  with_logger-fails client w null_logger = λ e. cc

  with_creation-fails :
      (c : Creation fl lg Callback)
      → with_creation fl lg push raw arrivals limit c ≢ exited 0 printed
  unfolding with_creation
  with_creation-fails (ended (returned client p)) = with_logger-fails client p.world _
  with_creation-fails (ended (threw x p)) = λ e. cc
  with_creation-fails (ended blocked) = λ e. cc
  with_creation-fails (ended terminated) = λ e. cc
  with_creation-fails (logger_refused p) = λ e. cc
  with_creation-fails logger_missing = λ e. cc

  with_limit-fails :
      (project : Bytes) (p : Process fl lg Callback) (o : Option ℕ)
      → o ≡ some limit
      → with_limit fl lg push raw arrivals project p o ≢ exited 0 printed
  unfolding with_limit
  with_limit-fails project p o same =
      subst (λ o'. with_limit fl lg push raw arrivals project p o' ≢ exited 0 printed) (sym same)
        (with_creation-fails _)

  -- If the messages that arrive in all, and ten, are fewer than the limit that the program is given, then
  -- the program does not end with the exit code 0: it ends with another one, crashes or does not end,
  -- whatever the service answers.
  pub main-fails :
      (name number project : Bytes) (rest : List Bytes) (p : Process fl lg Callback)
      → atoi number ≡ some limit
      → main fl lg push raw arrivals (name ∷ number ∷ project ∷ rest) p ≢ exited 0 printed
  unfolding main
  main-fails name number project rest p same = with_limit-fails project p (atoi number) same
