-- ===== src/ModAckIterator/Tests.antt =====
-- The theorems on pubsuber/src/ModAckIterator.cpp at a concrete iterator.
use pubsuber.ModAckIterator.State.{ack}
use pubsuber.ModAckIterator.Users.{watch, settle}
use pubsuber.ModAckIterator.Concurrent.{Concurrent, process_among}
use pubsuber.ModAckIterator.Reorder.{Reorders, process_with, process_among-Reorders}
use pubsuber.ModAckIterator.Kept.{OnlyCalls, process_among-Keeps}
use pubsuber.ModAckIterator.Requests.{take_pending}
use pubsuber.ModAckIterator.Decisions.{decided, pending, Changes-replay}
use pubsuber.Base.{ℕ, ◌+◌, ◌*◌, ◌^◌, ◌≤◌, ◌≡◌, refl, [], ◌∷◌, text, some, All, arith}
use pubsuber.Base.{Bytes_discrete, ℕ_discrete}
use pubsuber.Containers.{lookup}
use pubsuber.Double.{fixed_point, fixed_point-IsIeee}
use pubsuber.Distribution.Records.{total}
use pubsuber.Io.{After, Ends, returned, read_clock}
use pubsuber.ModAckIterator.State.{ack_deadline, min_ack_deadline, max_ack_deadline}
use pubsuber.ModAckIterator.Requests.{Session, modify_ack_deadlines, process_mod_acks}
use pubsuber.ModAckIterator.Deadlines.{ack_deadline_bounds, sleep_before_deadlines}
use pubsuber.Retriable.Spends.{Grown}
use pubsuber.Base.{zero, suc}
use pubsuber.ModAckIterator.Due.{ExtendsDue, DueNow, Extended, modify_ack_deadlines-Extends}
use pubsuber.Containers.{contains}
use pubsuber.Base.{inl}
use pubsuber.Io.{acknowledge}
use pubsuber.ModAckIterator.Drain.{Covered}
use pubsuber.ModAckIterator.Races.{Returns, process_mod_acks-Returns}
use pubsuber.ModAckIterator.State.{ModAckIterator}
use pubsuber.Base.{Bytes, false, ◌&&◌}
use pubsuber.Containers.{set_erase, set_emplace}
use pubsuber.Distribution.{record_value, increment}
use pubsuber.ModAckIterator.State.{nack, done, seconds_since, set_done, merge_input}
use pubsuber.ModAckIterator.Pending.{IsValid, start, next, settled, merged, Changes-IsValid}
use pubsuber.ModAckIterator.Process.{Processed}
use pubsuber.ModAckIterator.Outcome.{AllSent, process_mod_acks-Processed}
use pubsuber.ModAckIterator.Total.{process_mod_acks-Ends}
use pubsuber.Examples.{iterator, session}

process_mod_acks-Processed_example :
    After
      (λ ms t. AllSent fixed_point session refl t)
      (λ e t. Processed fixed_point session t)
      (process_mod_acks fixed_point session)
process_mod_acks-Processed_example =
    process_mod_acks-Processed fixed_point session refl (omega arith, tt) (omega arith, tt)
      (omega arith, (omega arith, tt))

process_mod_acks-Ends_example :
    Ends
      (λ ms t. AllSent fixed_point session refl t)
      (λ e t. Processed fixed_point session t)
      (process_mod_acks fixed_point session)
unfolding total
process_mod_acks-Ends_example =
    process_mod_acks-Ends fixed_point session refl (omega arith, omega arith) fixed_point-IsIeee
      (omega arith) (omega arith) ((omega arith, omega arith), tt) ((omega arith, omega arith), tt)
      ((omega arith, omega arith), ((omega arith, omega arith), tt)) (omega arith)

modify_ack_deadlines-Extends_example :
    After
      (λ ms t.
        Grown (ExtendsDue fixed_point 10 5 session) session.world t.world
        × ((k : Bytes)
            → DueNow fixed_point 10 5 session k
            → Extended fixed_point 10 5 session k t.world))
      (λ e t. Grown (ExtendsDue fixed_point 10 5 session) session.world t.world)
      (modify_ack_deadlines fixed_point 10 5 session)
unfolding lookup Bytes_discrete ℕ_discrete
modify_ack_deadlines-Extends_example =
    modify_ack_deadlines-Extends fixed_point 10 5 session (refl, (refl, tt))
      (omega arith, (omega arith, tt))

repeated : ℕ → Bytes
repeated zero = []
repeated (suc n) = 97 ∷ repeated n

-- An id of 600000 bytes.
abbrev long_id : Bytes
long_id = repeated 600_000

ack_deadline_bounds_example :
    (dl : ℕ) × (ack_deadline fixed_point iterator ≡ some dl)
    × (min_ack_deadline ≤ dl)
    × (dl ≤ max_ack_deadline)
unfolding total
ack_deadline_bounds_example =
    ack_deadline_bounds fixed_point iterator fixed_point-IsIeee (omega arith) (omega arith)

-- Both deadlines are ten seconds ahead.
abbrev quiet : Session fixed_point
quiet = record session {
  it = record iterator {
    keep_alive_ack_ids =
        (text "a", record { next_ack = 10_000_000_000 })
        ∷ (text "c", record { next_ack = 11_000_000_000 })
        ∷ [];
  };
}

sleep_before_deadlines_example :
    (ms : ℕ) × (modify_ack_deadlines fixed_point 10 5 quiet
      ≡ returned ms (record quiet { world = (read_clock quiet.world).1 }))
    × (5 * 1000 ≤ 2 * ms)
    × All (λ p. 0 + 2 * ms * 10 ^ 6 ≤ p.1.next_ack) quiet.it.keep_alive_ack_ids
sleep_before_deadlines_example =
    sleep_before_deadlines fixed_point 10 5 quiet (omega arith) (λ e. ground arith)
      (omega arith, (omega arith, tt))

-- The watcher of the acknowledged id was not merged yet.
abbrev raced : Session fixed_point
raced = record session {
  it = record iterator { input_ack_ids = (text "a", record { next_ack = 9_000_000_000 }) ∷ [] };
}

process_mod_acks-Returns_example :
    After
      (λ ms t.
        Returns fixed_point raced refl (text "a") (record { next_ack = 9_000_000_000 }) t
        × Covered (text "s") acknowledge (text "a") t.world)
      (λ e t. Returns fixed_point raced refl (text "a") (record { next_ack = 9_000_000_000 }) t)
      (process_mod_acks fixed_point raced)
unfolding lookup contains Bytes_discrete ℕ_discrete
process_mod_acks-Returns_example =
    process_mod_acks-Returns fixed_point raced refl (text "a") (record { next_ack = 9_000_000_000 })
      (omega arith, tt) (omega arith, tt) (omega arith, (omega arith, tt)) (inl refl) refl refl

-- The message is given back two seconds after it came, though an acknowledgement was pending.
abbrev given_back : ModAckIterator fixed_point
given_back = record iterator {
  ack_dist = record { hist = 0 ∷ 3 ∷ 1 ∷ [] };
  pending_ack_ids = [];
  pending_nack_ids = text "b" ∷ text "a" ∷ [];
}

done-given_back : done fixed_point (text "a") 0 2_000_000_000 nack iterator ≡ some given_back
unfolding done record_value increment seconds_since set_done set_erase set_emplace Bytes_discrete
    ℕ_discrete
done-given_back = refl

-- No id is both of two ids.
apart : (k : Bytes) → (contains k (text "a" ∷ []) && contains k (text "b" ∷ [])) ≡ false
unfolding contains
apart k = ground arith

iterator-IsValid : IsValid fixed_point iterator
unfolding lookup contains Bytes_discrete ℕ_discrete
iterator-IsValid = record { input = tt; keep_alive = (refl, (refl, tt)); apart = apart }

Changes-IsValid_example : IsValid fixed_point (merge_input fixed_point given_back)
Changes-IsValid_example =
    Changes-IsValid fixed_point iterator (merge_input fixed_point given_back)
      (next iterator given_back (merge_input fixed_point given_back)
        (next iterator iterator given_back (start iterator)
          (settled (text "a") 0 2_000_000_000 nack iterator given_back done-given_back))
        (merged given_back))
      iterator-IsValid

Changes-replay_example :
    (pending fixed_point (merge_input fixed_point given_back) (text "a") ≡ some nack)
    × (let (acks, nacks) = (take_pending fixed_point (merge_input fixed_point given_back)).0 in
        decided acks nacks (text "a") ≡ some nack)
unfolding Bytes_discrete ℕ_discrete
Changes-replay_example =
    Changes-replay fixed_point iterator (merge_input fixed_point given_back)
      (next iterator given_back (merge_input fixed_point given_back)
        (next iterator iterator given_back (start iterator)
          (settled (text "a") 0 2_000_000_000 nack iterator given_back done-given_back))
        (merged given_back))
      (text "a") refl

-- A user gives an id back before the first request, and acknowledges another one before the second.
abbrev contended : Concurrent fixed_point
contended = record {
  session = session;
  schedule =
      (settle (text "a") 0 2_000_000_000 nack ∷ [])
      ∷ (settle (text "c") 0 3_000_000_000 ack ∷ watch (text "d") 8_000_000_000 ∷ [])
      ∷ [];
}

process_among-Reorders_example :
    Reorders fixed_point contended (process_among fixed_point contended)
    × (process_with fixed_point [] session ≡ process_mod_acks fixed_point session)
process_among-Reorders_example = process_among-Reorders fixed_point contended

process_among-Keeps_example :
    After
      (λ ms c'. OnlyCalls fixed_point contended c')
      (λ e c'. OnlyCalls fixed_point contended c')
      (process_among fixed_point contended)
process_among-Keeps_example = process_among-Keeps fixed_point contended refl
