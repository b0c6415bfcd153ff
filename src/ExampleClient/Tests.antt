-- ===== src/ExampleClient/Tests.antt =====
-- Tests of `main` of example/client.cpp, with a callback that stands for a number.
use pubsuber.Base.{
  ℕ, [], ◌∷◌, ◌++◌, ◌≡◌, ◌≢◌, refl, List, Bool, some, none, text, true, Bytes_discrete, arith,
}
use pubsuber.Containers.{lookup, insert_or_assign}
use pubsuber.Double.{fixed_point}
use pubsuber.Io.{StatusCode, Reply}
use pubsuber.Logging.Table.{table}
use pubsuber.Retriable.{make_call, retries_exhausted}
use pubsuber.ExpoBackoff
use pubsuber.Executor.{add_iterator}
use pubsuber.Topic
use pubsuber.Subscription
use pubsuber.Client.{Process}
use pubsuber.ExampleClient.Program.{main, exited, runs_on, crashed, atoi}
use pubsuber.ExampleClient.Fails.{main-fails}
use pubsuber.Examples.{world_of, answer, empty_response, tick}

abbrev fresh : Process fixed_point table ℕ
fresh = record { registry = []; world = world_of [] tick }

-- No reading of the clock, no link and no answer is needed to refuse the arguments.
no_arguments : main fixed_point table 0 [] [] (text "client" ∷ text "12" ∷ []) fresh ≡ exited 1 []
unfolding main
no_arguments = refl

-- The channel does not connect.
not_connected :
    main fixed_point table 0 [] [] (text "client" ∷ text " +12x" ∷ text "prj" ∷ []) fresh
    ≡ exited 1 []
unfolding main lookup Bytes_discrete
not_connected = refl

-- The service does not answer the first request.
no_answer :
    main fixed_point table 0 [] []
      (text "client" ∷ text "12" ∷ text "prj" ∷ [])
      (record fresh { world = record fresh.world { links = true ∷ true ∷ [] } })
    ≡ runs_on
unfolding main lookup Bytes_discrete insert_or_assign Subscription.create Topic.exists make_call
    retries_exhausted ExpoBackoff.create
no_answer = refl

-- The service refuses to create the topic.
refused :
    main fixed_point table 0 [] [] (text "client" ∷ text "12" ∷ text "prj" ∷ []) (record fresh {
      world = record fresh.world {
        links = true ∷ true ∷ true ∷ [];
        replies = answer StatusCode.not_found ∷ answer (StatusCode.other 7) ∷ [];
      };
    })
    ≡ exited 1 []
unfolding main lookup Bytes_discrete insert_or_assign Subscription.create Topic.exists make_call
    retries_exhausted ExpoBackoff.create Topic.create
refused = refl

-- A negative number wraps around, and one that is too large is undefined.
limits : (atoi (text "-1") ≡ some 4_294_967_295) × (atoi (text "2147483648") ≡ none)
unfolding atoi
limits = (refl, refl)

-- A service that accepts everything, and no message that arrives.
abbrev accepts : Reply
accepts = record (answer StatusCode.ok) {
  response = record empty_response { message_ids = text "1" ∷ [] };
}

abbrev four_answers : List Reply
four_answers = accepts ∷ accepts ∷ accepts ∷ accepts ∷ []

abbrev four_links : List Bool
four_links = true ∷ true ∷ true ∷ true ∷ []

abbrev accepting : Process fixed_point table ℕ
accepting = record fresh {
  world = record fresh.world {
    links = four_links ++ four_links ++ four_links ++ four_links ++ four_links;
    replies = four_answers ++ four_answers ++ four_answers ++ four_answers ++ four_answers;
  };
}

-- Twelve rounds, and no message.
main-fails_example :
    main fixed_point table 0 [] [] (text "client" ∷ text "12" ∷ text "prj" ∷ []) accepting
    ≢ exited 0 []
unfolding atoi
main-fails_example =
    main-fails fixed_point table 0 [] [] 12 (omega arith) [] (text "client") (text "12")
      (text "prj") [] accepting refl

-- The program crashes in its eleventh round.
dry :
    main fixed_point table 0 [] [] (text "client" ∷ text "12" ∷ text "prj" ∷ []) accepting ≡ crashed
unfolding main lookup Bytes_discrete insert_or_assign Subscription.create Topic.exists make_call
    retries_exhausted ExpoBackoff.create Topic.create Subscription.delete Subscription.exists
    Topic.publish_message Subscription.receive add_iterator
dry = refl
