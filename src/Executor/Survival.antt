-- ===== src/Executor/Survival.antt =====
-- The threads of pubsuber/src/Executor.cpp outlive the exceptions of the calls that they make.
use pubsuber.Double.{Float}
use pubsuber.Io.{Outcome, Holds}
use pubsuber.Executor.{Executor}
use pubsuber.Executor.Rounds.{Running}

module _ (fl : Float) (Callback : Type 0) where
  -- The call does not throw; if it returns, it returns a state in `P`.
  abbrev Survives :
      {A : Type 0} → (Running fl Callback → Type 0) → Outcome (Running fl Callback) A → Type 0
  Survives P = Holds (λ a r. P r) (λ e r. ⊥) (Unit {0})

  abbrev Any : Running fl Callback → Type 0
  Any r = Unit
