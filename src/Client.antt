-- ===== src/Client.antt =====
-- pubsuber/src/Pubsuber.cpp and pubsuber/include/pubsuber/Pubsuber.h: the client and its options.
pub mod Names
pub mod Second
mod Tests
use pubsuber.Logging.{
  Spdlog, Level, info, Logged, logged, duplicate, null_logger, change_level, setup,
}
use pubsuber.Base.{
  ℕ, ◌*◌, List, [], ◌∷◌, ◌++◌, Bytes, text, Bool, true, false, Option, none, some, ◌||◌,
}
use pubsuber.Double.{Float}
use pubsuber.ExpoBackoff.{ExponentialBackoffPolicy}
use pubsuber.Io.{
  Exception, World, Outcome, returned, threw, blocked, terminated, Act, ◌>>=◌, plain,
  ensure_connected,
}
use pubsuber.Retriable.{RetryCountPolicy, MaxRetryTimePolicy, Policies}
use pubsuber.ThreadDataBlock.{ThreadDataBlock}
use pubsuber.Executor.{Executor, apply_policies, stop_threads}
use pubsuber.Topic.{TopicImpl}
use pubsuber.Subscription.{SubscriptionImpl}
use pubsuber.Subscription

module _ (lg : Spdlog) where
  -- The sink of the metrics is an object of the user: `metric_sink` is whether it is set.
  pub record ClientOptions : Type 0 where
    pub project : Bytes
    pub pubsub_host : Bytes
    pub secure_channel : Bool
    pub max_message_prefetch : ℕ
    pub log_sink : Option lg.Sink
    pub metric_sink : Bool
    pub log_level : Level

  unfoldable pub create_default : Bytes → ClientOptions
  create_default project = record {
    project = project;
    pubsub_host = text "pubsub.googleapis.com";
    secure_channel = true;
    max_message_prefetch = 4;
    log_sink = none;
    metric_sink = false;
    log_level = info;
  }

  unfoldable pub set_host : Bytes → ClientOptions → ClientOptions
  set_host host o = record o { pubsub_host = host }

  unfoldable pub set_secure_channel : Bool → ClientOptions → ClientOptions
  set_secure_channel secure o = record o { secure_channel = secure }

  unfoldable pub set_max_prefetch : ℕ → ClientOptions → ClientOptions
  set_max_prefetch max o = record o { max_message_prefetch = max }

  unfoldable pub set_log_sink : Option lg.Sink → ClientOptions → ClientOptions
  set_log_sink sink o = record o { log_sink = sink }

  unfoldable pub set_metric_sink : Bool → ClientOptions → ClientOptions
  set_metric_sink sink o = record o { metric_sink = sink }

  unfoldable pub set_log_level : Level → ClientOptions → ClientOptions
  set_log_level level o = record o { log_level = level }

  -- The channel to the service, with its limits in bytes.
  pub record Channel : Type 0 where
    pub host : Bytes
    pub secure : Bool
    pub max_receive_message_size : ℕ
    pub max_send_message_size : ℕ

  abbrev pub max_send_recv_bytes : ℕ
  max_send_recv_bytes = 20 * 1024 * 1024

  -- `CreateCustomChannel` of the constructor of `Executor`: a channel that is not secure has other
  -- credentials than the default ones.
  unfoldable pub create_channel : ClientOptions → Channel
  create_channel opts = record {
    host = opts.pubsub_host;
    secure = opts.secure_channel;
    max_receive_message_size = max_send_recv_bytes;
    max_send_message_size = max_send_recv_bytes;
  }

module _ (fl : Float) where
  -- A policy that is given to `Client::Create`.
  pub data Policy : Type 0 where
    count_policy : RetryCountPolicy → Policy
    time_policy : MaxRetryTimePolicy → Policy
    backoff_policy : ExponentialBackoffPolicy fl → Policy

  abbrev pub default_policies : Policies fl
  default_policies = record {
    count_policy = record { count = 3 };
    time_policy = record { interval = 15 };
    backoff_policy = record {
      initial_delay = 250;
      max_delay = 15000;
      scale = fl.decimal 27182818 7;
    };
  }

  unfoldable pub apply : Policy → Policies fl → Policies fl
  apply (count_policy c) p = record p { count_policy = c }
  apply (time_policy t) p = record p { time_policy = t }
  apply (backoff_policy b) p = record p { backoff_policy = b }

  -- `ApplyPolicies(first, policies...)` on the fields of the client.
  unfoldable pub apply_all : List Policy → Policies fl → Policies fl
  unfolding apply
  apply_all [] p = p
  apply_all (first ∷ policies) p = apply_all policies (apply first p)

module _ (fl : Float) (Callback : Type 0) where
  no_iterators : {I : Type 0} → ThreadDataBlock I
  no_iterators = record {
    need_stop = false;
    input_iterators = [];
    removed_iterators = [];
    active_iterators = [];
  }

  unfoldable pub topic_name : Bytes → Bytes → Bytes
  topic_name project id = text "projects/" ++ (project ++ (text "/topics/" ++ id))

  unfoldable pub subscription_name : Bytes → Bytes → Bytes
  subscription_name project id = text "projects/" ++ (project ++ (text "/subscriptions/" ++ id))

module _ (fl : Float) (lg : Spdlog) (Callback : Type 0) where
  -- The client with the channel and the metric sink of its executor.
  pub record Client : Type 0 where
    pub options : ClientOptions lg
    pub executor : Executor fl Callback
    pub channel : Channel lg
    pub metrics_sinks : Bool
    pub policies : Policies fl

  -- What all clients of a program share with the environment.
  pub record Process : Type 0 where
    pub registry : lg.Registry
    pub world : World

  -- How the creation of a client ends; beside an outcome of the library's own, by the exception of
  -- spdlog, or by a call through a null pointer.
  pub data Creation : Type 0 where
    ended : Outcome Process Client → Creation
    logger_refused : Process → Creation
    logger_missing : Creation

  -- The constructor of `Executor` behind the set-up of the logger.
  start : ClientOptions lg → Executor fl Callback
  unfolding no_iterators
  start opts = record {
    max_prefetch = opts.max_message_prefetch;
    policies = default_policies fl;
    ack_thread = no_iterators fl Callback;
    pull_thread = no_iterators fl Callback;
    store = [];
  }

  -- The constructors of `Client`: the executor's policies are set if any policy is given.
  connected : ClientOptions lg → List (Policy fl) → Client
  unfolding apply_all start apply_policies create_channel
  connected opts policies =
      let p = apply_all fl policies (default_policies fl) in
      record {
        options = opts;
        executor = apply_policies fl Callback p (start opts);
        channel = create_channel lg opts;
        metrics_sinks = opts.metric_sink;
        policies = p;
      }

  on_connected : ClientOptions lg → List (Policy fl) → Bool → Act World Client
  unfolding connected
  on_connected opts policies true w = returned (connected opts policies) w
  on_connected opts policies false w =
      threw
        (plain (
          text "Pubsuber: Unable to connect to "
          ++ (opts.pubsub_host ++ text " within given timeout")))
        w

  abbrev with_registry : lg.Registry → Outcome World Client → Outcome Process Client
  with_registry r (returned c w) = returned c (record { registry = r; world = w })
  with_registry r (threw e w) = threw e (record { registry = r; world = w })
  with_registry r blocked = blocked
  with_registry r terminated = terminated

  after_setup : ClientOptions lg → List (Policy fl) → Process → Logged lg.Registry → Creation
  unfolding on_connected ensure_connected
  after_setup opts policies p duplicate = logger_refused p
  after_setup opts policies p null_logger = logger_missing
  after_setup opts policies p (logged r) =
      ended (with_registry r ((ensure_connected >>= on_connected opts policies) p.world))

  -- `Client::Create`. An executor that is stopped since it does not connect is not seen again.
  unfoldable pub create : ClientOptions lg → List (Policy fl) → Process → Creation
  unfolding after_setup setup
  create opts policies p = elim opts.project [
    | [] ↦ ended (threw (plain (text "Pubsuber: project must not be empty string")) p)
    | c ∷ project ↦ elim opts.pubsub_host [
      | [] ↦ ended (threw (plain (text "Pubsuber: pubsubHost must not be empty")) p)
      | d ∷ host ↦ after_setup opts policies p (setup lg opts.log_sink opts.log_level p.registry)
    ]
  ]

  -- The default project stands for an empty one.
  project_or_default : Client → Bytes → Bytes
  project_or_default c [] = c.options.project
  project_or_default c (p ∷ project) = p ∷ project

  unfoldable pub get_topic : Bytes → Bytes → Act Client (TopicImpl fl)
  unfolding project_or_default topic_name
  get_topic [] project c =
      threw (plain (text "Pubsuber: topic id (non-fully qualified name) must not be empty string"))
        c
  get_topic (i ∷ id) project c =
      returned
        (record {
          id = i ∷ id;
          full_name = topic_name fl Callback (project_or_default c project) (i ∷ id);
          policies = c.policies;
        })
        c

  -- The text of the exception names a topic here too.
  unfoldable pub get_subscription : Bytes → Bytes → Act Client (SubscriptionImpl fl Callback)
  unfolding project_or_default subscription_name
  get_subscription [] project c =
      threw (plain (text "Pubsuber: topic id (non-fully qualified name) must not be empty string"))
        c
  get_subscription (i ∷ id) project c =
      Subscription.create fl Callback true (i ∷ id)
        (subscription_name fl Callback (project_or_default c project) (i ∷ id)) c.policies c

  -- The destructor.
  unfoldable pub destroy : Client → Client
  destroy c = record c { executor = stop_threads fl Callback c.executor }

  -- `SetLogLevel`.
  unfoldable pub client_log_level : Level → lg.Registry → Logged lg.Registry
  unfolding change_level
  client_log_level level r = change_level lg level r
