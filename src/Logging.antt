-- ===== src/Logging.antt =====
-- pubsuber/src/PSLog.h: the logger of the library, over the registry of the logging library spdlog.
pub mod Table
use pubsuber.Base.{ℕ, ◌≡◌, refl, subst, Bytes, text, Option, none, some}

-- `spdlog::level::level_enum`: the enumerators that the source names, and any other one.
pub data Level : Type 0 where
  trace debug info err : Level
  other : ℕ → Level

-- What the source uses of spdlog: its global registry of loggers, which is passed on.
pub record Spdlog : Type 1 where
  pub Registry : Type 0
  pub Sink : Type 0
  pub Logger : Type 0
  -- A `stdout_sink_mt` with a pattern and a level.
  pub stdout_sink : Bytes → Level → Sink
  -- `std::make_shared<spdlog::logger>(name, sink)`.
  pub make_logger : Bytes → Sink → Logger
  -- `spdlog::register_logger`; `none` is that it throws `spdlog_ex`.
  pub register_logger : Logger → Registry → Option Registry
  -- `spdlog::get`; `none` is the null pointer.
  pub get : Bytes → Registry → Option Logger
  pub set_level : Logger → Level → Registry → Registry

-- The documentation of spdlog: a logger that was registered is found under its name, a second one of
-- the same name is refused, and a change of the level leaves the names registered.
pub record IsDocumented (lg : Spdlog) : Type 0 where
  pub registered :
      (name : Bytes) (sink : lg.Sink) (r r' : lg.Registry)
      → lg.register_logger (lg.make_logger name sink) r ≡ some r'
      → lg.get name r' ≡ some (lg.make_logger name sink)
  pub refused :
      (name : Bytes) (sink : lg.Sink) (l : lg.Logger) (r : lg.Registry)
      → lg.get name r ≡ some l
      → lg.register_logger (lg.make_logger name sink) r ≡ none
  pub kept :
      (name : Bytes) (l l' : lg.Logger) (level : Level) (r : lg.Registry)
      → lg.get name r ≡ some l'
      → (l'' : lg.Logger) × (lg.get name (lg.set_level l level r) ≡ some l'')

-- How a function of the logger ends: `duplicate` is the exception of spdlog, which is no
-- `pubsuber::Exception`, and `null_logger` a call through the null pointer.
pub data Logged (R : Type 0) : Type 0 where
  logged : R → Logged R
  duplicate null_logger : Logged R

-- The name of the logger.
abbrev pub logger_name : Bytes
logger_name = text "pubsuber"

module _ (lg : Spdlog) where
  unfoldable pub change_level : Level → lg.Registry → Logged lg.Registry
  change_level level r = elim (lg.get logger_name r) [
    | none ↦ null_logger
    | some l ↦ logged (lg.set_level l level r)
  ]

  unfoldable pub sink_or_default : Option lg.Sink → lg.Sink
  sink_or_default none = lg.stdout_sink (text "%D-%T.%f [%t] [%L]: %v") trace
  sink_or_default (some sink) = sink

  unfoldable pub setup : Option lg.Sink → Level → lg.Registry → Logged lg.Registry
  unfolding change_level sink_or_default
  setup sink level r =
      elim (lg.register_logger (lg.make_logger logger_name (sink_or_default sink)) r) [
        | none ↦ duplicate
        | some r' ↦ change_level level r'
      ]

  -- The registry holds the library's logger.
  abbrev pub HasLogger : lg.Registry → Type 0
  HasLogger r = (l : lg.Logger) × (lg.get logger_name r ≡ some l)

  pub change_level-HasLogger :
      (level : Level) (r : lg.Registry)
      → IsDocumented lg
      → HasLogger r
      → (r' : lg.Registry) × (change_level level r ≡ logged r') × HasLogger r'
  unfolding change_level
  change_level-HasLogger level r doc (l, e) =
      (lg.set_level l level r, rw (e, change_level), doc.kept logger_name l l level r e)

  pub setup_refused :
      (sink : Option lg.Sink) (level : Level) (r : lg.Registry)
      → IsDocumented lg
      → HasLogger r
      → setup sink level r ≡ duplicate
  unfolding setup
  setup_refused sink level r doc (l, e) =
      rw (doc.refused logger_name (sink_or_default sink) l r e, setup)

  pub setup-HasLogger :
      (sink : Option lg.Sink) (level : Level) (r r' : lg.Registry)
      → IsDocumented lg
      → setup sink level r ≡ logged r'
      → HasLogger r'
  unfolding setup
  setup-HasLogger sink level r r' doc e =
      go (lg.register_logger (lg.make_logger logger_name (sink_or_default sink)) r) refl e
    where
      go :
          (o : Option lg.Registry)
          → lg.register_logger (lg.make_logger logger_name (sink_or_default sink)) r ≡ o
          → elim o [ none ↦ duplicate | some r₁ ↦ change_level level r₁ ] ≡ logged r'
          → HasLogger r'
      go none f e = absurd (cc)
      go (some r₁) f e =
          let (r₂, changed, has) = change_level-HasLogger level r₁ doc (
            lg.make_logger logger_name (sink_or_default sink),
            doc.registered logger_name (sink_or_default sink) r r₁ f,
          ) in
          let same : r₂ ≡ r' = cc in subst HasLogger same has
