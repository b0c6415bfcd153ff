-- ===== src/Message/Tests.antt =====
-- The theorem on pubsuber/src/MessageImpl.cpp for a message that is acknowledged twice.
use pubsuber.Base.{Bytes_discrete, ℕ_discrete, some, false, ◌++◌, arith}
use mathlib.Core.Option
use pubsuber.Double.{fixed_point-IsIeee}
use pubsuber.Containers.{insert_or_assign, set_erase, set_emplace}
use pubsuber.Distribution.{record_value, increment}
use pubsuber.Distribution.Records.{total}
use pubsuber.Io.{World, Ends, acknowledge}
use pubsuber.ModAckIterator.{ModAckIterator, seconds_since, set_done, done, add_deadline_watcher}
use pubsuber.ModAckIterator.Requests.{process_mod_acks}
use pubsuber.ModAckIterator.Drain.{Covered}
use pubsuber.ModAckIterator.Pending.{start, next, watched}
use pubsuber.Message.{settle, destroy, after_done}
use pubsuber.Message.Reaches.{message_reaches_service}
use pubsuber.Examples.{world_of, ok_answers, tick}
use pubsuber.Base.{◌≡◌, refl, [], ◌∷◌, text, true}
use pubsuber.Double.{fixed_point}
use pubsuber.ModAckIterator.{ack, nack}
use pubsuber.Message.{Held}
use pubsuber.Message.Settled.{live, settled, live-first}
use pubsuber.Examples.{iterator}

abbrev held : Held fixed_point
held = record {
  message = record {
    attached = true;
    subscription_name = text "s";
    ack_id = text "d";
    attributes = [];
    msg = record { payload = text "hello"; attributes = [] };
    receive_time = 0;
  };
  alive = true;
  it = iterator;
}

-- The acknowledgement counts, and not the nack after it.
live-first_example :
    live fixed_point ((ack, 2_000_000_000) ∷ (nack, 3_000_000_000) ∷ []) 4_000_000_000 held
    ≡ settled fixed_point held (ack, 2_000_000_000)
live-first_example =
    live-first fixed_point ((ack, 2_000_000_000) ∷ (nack, 3_000_000_000) ∷ []) 4_000_000_000 held
      refl refl

-- The iterator, and the message without it, after an acknowledgement that came in two seconds.
abbrev acked : ModAckIterator fixed_point
acked = record iterator {
  ack_dist = record { hist = 0 ∷ 3 ∷ 1 ∷ [] };
  pending_ack_ids = text "a" ∷ text "d" ∷ [];
}

abbrev released : Held fixed_point
released = record held { message = record held.message { attached = false }; it = acked }

-- Meanwhile another message comes.
abbrev watching : ModAckIterator fixed_point
watching = record acked { input_ack_ids = (text "e", record { next_ack = 20_000_000_000 }) ∷ [] }

held-released : live fixed_point ((ack, 2_000_000_000) ∷ []) 4_000_000_000 held ≡ some released
unfolding live settle destroy after_done done record_value increment seconds_since set_done
    set_erase set_emplace Bytes_discrete ℕ_discrete Option.bind
held-released = refl

abbrev answering : World
answering = world_of (ok_answers ++ ok_answers) tick

message_reaches_service_example :
    Ends
      (λ ms t. Covered (text "s") acknowledge (text "d") t.world)
      (λ e t. Unit {0})
      (process_mod_acks fixed_point (record { it = watching; world = answering }))
unfolding total add_deadline_watcher insert_or_assign
message_reaches_service_example =
    message_reaches_service fixed_point ((ack, 2_000_000_000) ∷ []) 4_000_000_000 held released
      watching (next acked acked watching (start acked) (watched (text "e") 20_000_000_000 acked))
      answering refl refl refl held-released tt fixed_point-IsIeee
      (record {
        alive = refl;
        limited = (omega arith, omega arith);
        filled = omega arith;
        few = omega arith;
        fit_acks = ((omega arith, omega arith), ((omega arith, omega arith), tt));
        fit_nacks = ((omega arith, omega arith), tt);
        fits = ((omega arith, omega arith), ((omega arith, omega arith), tt));
      })
      (omega arith)
