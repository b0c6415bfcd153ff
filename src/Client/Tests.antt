-- ===== src/Client/Tests.antt =====
-- The theorems on pubsuber/src/Pubsuber.cpp at concrete names and policies.
use pubsuber.Logging.{Level, logged}
use pubsuber.Logging.Table.{table, table-IsDocumented}
use pubsuber.Client.{
  ClientOptions, Process, create_default, create, logger_refused, client_log_level,
}
use pubsuber.Client.Second.{IfEnded, create_second}
use pubsuber.Examples.{world_of, tick}
use pubsuber.Base.{◌≡◌, ℕ, [], text, Occurs, arith}
use pubsuber.Double.{fixed_point}
use pubsuber.Client.Names.{slash}

no_slash : ¬ Occurs slash (text "prj")
no_slash h = ground arith

abbrev options : ClientOptions table
options = create_default table (text "prj")

abbrev fresh : Process fixed_point table ℕ
fresh = record { registry = []; world = world_of [] tick }

-- The first client does not connect.
create_second_example :
    IfEnded fixed_point table ℕ
      (λ p'.
        (create fixed_point table ℕ options [] p' ≡ logger_refused p')
        × ((level : Level)
            → (r : table.Registry) × (client_log_level fixed_point table ℕ level p'.registry
                ≡ logged r)))
      (create fixed_point table ℕ options [] fresh)
unfolding create_default
create_second_example =
    create_second fixed_point table ℕ options options [] [] fresh table-IsDocumented
      ((λ e. cc), (λ e. cc)) ((λ e. cc), (λ e. cc))
