-- ===== src/ExampleClient/Program.antt =====
-- example/client.cpp: the options and the policies of its client, the creation of the client, and `main`.
-- The lines of its log are left out, its sleeps, and the end of the client, which waits for the threads.
use pubsuber.Base.{
  ℕ, ◌+◌, ◌-◌, ◌*◌, ◌%◌, ◌^◌, List, [], ◌∷◌, Bytes, text, Bool, true, false, Option, none, some,
  ltb, leb, ◌==◌, ◌&&◌, ◌||◌, if◌then◌else◌,
}
use pubsuber.Double.{Float}
use pubsuber.Logging.{Spdlog, trace, debug, Logged, logged, duplicate, null_logger}
use pubsuber.Io.{World, Outcome, returned, threw, blocked, terminated}
use pubsuber.Topic.{TopicImpl}
use pubsuber.Subscription.{Shared, SubscriptionImpl}
use pubsuber.Client.{
  ClientOptions, create_default, set_log_sink, set_metric_sink, set_log_level, Policy, count_policy,
  time_policy, backoff_policy, Client, Process, Creation, ended, logger_refused, logger_missing,
  create, client_log_level, get_topic, get_subscription,
}
use pubsuber.Interfaces.{Message}
use pubsuber.Interfaces.Objects.{shared_topic, subscription_of}
use pubsuber.ExampleClient.{Job, do_the_job}

-- How the program ends: with an exit code and what it wrote, the last first, not at all, or by an
-- exception that is not caught, undefined behaviour or a null pointer.
pub data Exit : Type 0 where
  exited : ℕ → List Bool → Exit
  runs_on crashed : Exit

unfoldable read_digits : ℕ → Bytes → ℕ
read_digits n [] = n
read_digits n (c ∷ s) =
    let rest = read_digits (n * 10 + (c - 48)) s in if leb 48 c && leb c 57 then rest else n

-- An `int` that is converted to `uint32_t`; `std::atoi` of a number that is no `int` is undefined.
unfoldable to_limit : Bool → ℕ → Option ℕ
to_limit false n = if ltb n (2 ^ 31) then some n else none
to_limit true n = if leb n (2 ^ 31) then some ((2 ^ 32 - n) % 2 ^ 32) else none

unfoldable signed : Bytes → Option ℕ
unfolding to_limit read_digits
signed [] = some 0
signed (c ∷ s) =
    if c == 45
    then to_limit true (read_digits 0 s)
    else if c == 43
    then to_limit false (read_digits 0 s)
    else to_limit false (read_digits 0 (c ∷ s))

-- `std::atoi`, with the white space of the "C" locale, as an argument for `limit`.
unfoldable pub atoi : Bytes → Option ℕ
unfolding signed
atoi [] = some 0
atoi (c ∷ s) =
    let rest = atoi s in if (c == 32) || (leb 9 c && leb c 13) then rest else signed (c ∷ s)

module _ (fl : Float) (lg : Spdlog) where
  unfoldable job_options : Bytes → ClientOptions lg
  unfolding create_default set_metric_sink set_log_sink set_log_level
  job_options project = set_log_level lg debug (
      set_log_sink lg (some (lg.stdout_sink (text "%D-%T.%f [%n] [%t] [%L]: %v") trace))
        (set_metric_sink lg true (create_default lg project)))

  abbrev job_policies : List (Policy fl)
  job_policies =
      time_policy (record { interval = 30 })
      ∷ count_policy (record { count = 4 })
      ∷ backoff_policy (record { initial_delay = 250; max_delay = 3000; scale = fl.decimal 2 0 })
      ∷ []

module _ (fl : Float) (lg : Spdlog) {Callback : Type 0} (push : Callback) (raw : List ℕ)
    (arrivals : List (List (Message (Shared fl Callback)))) where
  unfoldable pub on_exit : Outcome (Job (Shared fl Callback)) ℕ → Exit
  on_exit (returned code j) = exited code j.printed
  on_exit (threw e j) = exited 1 j.printed
  on_exit blocked = runs_on
  on_exit terminated = crashed

  abbrev pub shared :
      Client fl lg Callback → World → SubscriptionImpl fl Callback → Shared fl Callback
  shared client w s = record {
    subscription = s;
    alive = true;
    executor = client.executor;
    world = w;
  }

  abbrev pub new_job : Shared fl Callback → Job (Shared fl Callback)
  new_job state = record { state = state; messages = []; arrivals = arrivals; printed = [] }

  -- The job of a client that has its topic and its subscription.
  unfoldable pub run_job :
      ℕ → Client fl lg Callback → World → TopicImpl fl → SubscriptionImpl fl Callback → Exit
  unfolding on_exit do_the_job
  run_job limit client w topic s =
      let state : Shared fl Callback = shared client w s in
      on_exit (
        do_the_job (shared_topic fl Callback topic) (subscription_of fl Callback state raw) push
          limit (new_job state))

  -- `GetSubscription` changes nothing and does not fail here, so that it may come before the calls of
  -- the topic.
  unfoldable pub with_subscription :
      ℕ
      → Client fl lg Callback
      → World
      → TopicImpl fl
      → Outcome (Client fl lg Callback) (SubscriptionImpl fl Callback)
      → Exit
  unfolding run_job
  with_subscription limit client w topic (returned s c) = run_job limit client w topic s
  with_subscription limit client w topic (threw e c) = exited 1 []
  with_subscription limit client w topic blocked = runs_on
  with_subscription limit client w topic terminated = crashed

  unfoldable pub with_topic :
      ℕ → Client fl lg Callback → World → Outcome (Client fl lg Callback) (TopicImpl fl) → Exit
  unfolding with_subscription get_subscription
  with_topic limit client w (returned t c) =
      with_subscription limit client w t
        (get_subscription fl lg Callback (text "mwapi-task-subscription%1") [] client)
  with_topic limit client w (threw e c) = exited 1 []
  with_topic limit client w blocked = runs_on
  with_topic limit client w terminated = crashed

  -- `SetLogLevel` of the new client, and what comes then.
  unfoldable pub with_logger : ℕ → Client fl lg Callback → World → Logged lg.Registry → Exit
  unfolding with_topic get_topic
  with_logger limit client w (logged r) =
      with_topic limit client w (get_topic fl lg Callback (text "mwapi-task%1") [] client)
  with_logger limit client w duplicate = crashed
  with_logger limit client w null_logger = crashed

  -- The exception of spdlog is no `pubsuber::Exception`: it is not caught.
  unfoldable pub with_creation : ℕ → Creation fl lg Callback → Exit
  unfolding with_logger client_log_level
  with_creation limit (ended (returned client p)) =
      with_logger limit client p.world (client_log_level fl lg Callback debug p.registry)
  with_creation limit (ended (threw e p)) = exited 1 []
  with_creation limit (ended blocked) = runs_on
  with_creation limit (ended terminated) = crashed
  with_creation limit (logger_refused p) = crashed
  with_creation limit logger_missing = crashed

  unfoldable pub with_limit : Bytes → Process fl lg Callback → Option ℕ → Exit
  unfolding with_creation job_options create
  with_limit project p none = crashed
  with_limit project p (some limit) =
      with_creation limit (create fl lg Callback (job_options fl lg project) (job_policies fl lg) p)

  -- `main`, given its arguments, the name of the program among them.
  unfoldable pub main : List Bytes → Process fl lg Callback → Exit
  unfolding with_limit atoi
  main (name ∷ limit ∷ project ∷ rest) p = with_limit project p (atoi limit)
  main _ p = exited 1 []
