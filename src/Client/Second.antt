-- ===== src/Client/Second.antt =====
-- What becomes of a second client of pubsuber/src/Pubsuber.cpp in one program.
use pubsuber.Base.{◌≡◌, ◌≢◌, ◌∙◌, refl, ap, List, [], ◌∷◌, Bytes, text}
use pubsuber.Double.{Float}
use pubsuber.Io.{
  World, Outcome, returned, threw, blocked, terminated, ensure_connected, ◌>>=◌, plain,
}
use pubsuber.Logging.{
  Spdlog, IsDocumented, Level, Logged, logged, duplicate, null_logger, setup, HasLogger,
  setup_refused, setup-HasLogger, change_level-HasLogger,
}
use pubsuber.Client.{
  ClientOptions, Policy, Client, Process, Creation, ended, logger_refused, logger_missing,
  after_setup, with_registry, on_connected, create, client_log_level,
}

module _ (lg : Spdlog) where
  -- `Create` does not refuse the options by itself.
  abbrev pub IsComplete : ClientOptions lg → Type 0
  IsComplete opts = (opts.project ≢ []) × (opts.pubsub_host ≢ [])

module _ (fl : Float) (lg : Spdlog) (Callback : Type 0) where
  create_complete :
      (opts : ClientOptions lg) (policies : List (Policy fl)) (p : Process fl lg Callback)
      → IsComplete lg opts
      → create fl lg Callback opts policies p
        ≡ after_setup fl lg Callback opts policies p
            (setup lg opts.log_sink opts.log_level p.registry)
  unfolding create
  create_complete opts policies p (named, hosted) = go opts.project opts.pubsub_host named hosted
    where
      done : Creation fl lg Callback
      done =
          after_setup fl lg Callback opts policies p
            (setup lg opts.log_sink opts.log_level p.registry)

      go :
          (project host : Bytes)
          → project ≢ []
          → host ≢ []
          → elim project [
            | [] ↦ ended (threw (plain (text "Pubsuber: project must not be empty string")) p)
            | c ∷ project ↦ elim host [
              | [] ↦ ended (threw (plain (text "Pubsuber: pubsubHost must not be empty")) p)
              | d ∷ host ↦ done
            ]
          ]
            ≡ done
      go [] host named hosted = absurd (named refl)
      go (c ∷ project) [] named hosted = absurd (hosted refl)
      go (c ∷ project) (d ∷ host) named hosted = refl

  -- The creation ended with a client or with an exception of the library, and the program is in `P`.
  abbrev pub IfEnded : (Process fl lg Callback → Type 0) → Creation fl lg Callback → Type 0
  IfEnded P (ended (returned c p)) = P p
  IfEnded P (ended (threw e p)) = P p
  IfEnded P _ = Unit {0}

  after_setup-HasLogger :
      (opts : ClientOptions lg) (policies : List (Policy fl)) (p : Process fl lg Callback)
      (o : Logged lg.Registry)
      → IsDocumented lg
      → setup lg opts.log_sink opts.log_level p.registry ≡ o
      → IfEnded (λ p'. HasLogger lg p'.registry) (after_setup fl lg Callback opts policies p o)
  unfolding after_setup ensure_connected on_connected
  after_setup-HasLogger opts policies p duplicate doc e = tt
  after_setup-HasLogger opts policies p null_logger doc e = tt
  after_setup-HasLogger opts policies p (logged r) doc e =
      go ((ensure_connected >>= on_connected fl lg Callback opts policies) p.world)
    where
      go :
          (o : Outcome World (Client fl lg Callback))
          → IfEnded (λ p'. HasLogger lg p'.registry) (ended (with_registry fl lg Callback r o))
      go (returned c w) = setup-HasLogger lg opts.log_sink opts.log_level p.registry r doc e
      go (threw x w) = setup-HasLogger lg opts.log_sink opts.log_level p.registry r doc e
      go blocked = tt
      go terminated = tt

  IfEnded-mono :
      (P Q : Process fl lg Callback → Type 0) (o : Creation fl lg Callback)
      → IfEnded P o
      → ((p : Process fl lg Callback) → P p → Q p)
      → IfEnded Q o
  IfEnded-mono P Q (ended (returned c p)) h f = f p h
  IfEnded-mono P Q (ended (threw e p)) h f = f p h
  IfEnded-mono P Q (ended blocked) h f = tt
  IfEnded-mono P Q (ended terminated) h f = tt
  IfEnded-mono P Q (logger_refused p) h f = tt
  IfEnded-mono P Q logger_missing h f = tt

  -- The spdlog is as its documentation says, and both clients' options have a project and a host. Once
  -- a client was created, or failed to connect, `Create` of another client in the same program ends by
  -- the exception of spdlog, before it connects. The level of the log can be set all the same.
  pub create_second :
      (first second : ClientOptions lg) (policies policies' : List (Policy fl))
      (p : Process fl lg Callback)
      → IsDocumented lg
      → IsComplete lg first
      → IsComplete lg second
      → IfEnded
          (λ p'.
            (create fl lg Callback second policies' p' ≡ logger_refused p')
            × ((level : Level)
                → (r : lg.Registry) × (client_log_level fl lg Callback level p'.registry
                    ≡ logged r)))
          (create fl lg Callback first policies p)
  unfolding client_log_level after_setup
  create_second first second policies policies' p doc whole whole' =
      rw (create_complete first policies p whole) (
        IfEnded-mono (λ p'. HasLogger lg p'.registry) _ _
          (after_setup-HasLogger first policies p
            (setup lg first.log_sink first.log_level p.registry) doc refl)
          (λ p' has. (
            create_complete second policies' p' whole'
                ∙ ap (after_setup fl lg Callback second policies' p')
                    (setup_refused lg second.log_sink second.log_level p'.registry doc has),
            λ level.
                let (r, changed, still) = change_level-HasLogger lg level p'.registry doc has in
                (r, changed),
          )))
