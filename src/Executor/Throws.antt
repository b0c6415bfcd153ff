-- ===== src/Executor/Throws.antt =====
-- The pull thread of pubsuber/src/Executor.cpp after an exception of `Pull`, or of a callback of the user.
use pubsuber.Base.{ℕ, Bool}
use pubsuber.Double.{Float}
use pubsuber.Io.{Outcome, returned, threw, blocked, terminated, Act}
use pubsuber.Message.{MessageImpl}
use pubsuber.ModAckIterator.Requests.{Session}
use pubsuber.ThreadDataBlock.Turns.{turn}
use pubsuber.Executor.{Executor}
use pubsuber.Executor.Rounds.{Running, pull_thread_func}

module _ (fl : Float) (Callback : Type 0)
    (run : Callback → MessageImpl → Act (Session fl) (Unit {0}))
    (wait : ℕ → Executor fl Callback → Executor fl Callback × Bool) where
  -- The subscriptions that a round pulls: those that were removed are gone, and those that were added
  -- are merged.
  abbrev pub turned : Running fl Callback → Running fl Callback
  turned r = record r { executor = record r.executor { pull_thread = turn r.executor.pull_thread } }

  -- The rest of the loop after a round.
  abbrev go_on :
      ℕ → Outcome (Running fl Callback) (Unit {0}) → Outcome (Running fl Callback) (Unit {0})
  go_on rounds o = elim o [
    | returned u r ↦ pull_thread_func fl Callback run wait rounds r
    | threw e r ↦ threw e r
    | blocked ↦ blocked
    | terminated ↦ terminated
  ]
