-- ===== src/ModAckIterator/Deadlines.antt =====
-- `AckDeadline` and the sleep time of `ModifyAckDeadlines` in pubsuber/src/ModAckIterator.cpp.
use pubsuber.Base.{
  ℕ, ◌+◌, ◌-◌, ◌*◌, ◌/◌, ◌^◌, ◌≤◌, ◌<◌, ◌≡◌, ◌≢◌, refl, sym, subst, [], ◌∷◌, Bytes, true, false,
  some, length, min, max, All, arith,
}
use pubsuber.Containers.{Map}
use pubsuber.Double.{Float, IsIeee}
use pubsuber.Distribution.Records.{total}
use pubsuber.Distribution.Percentiles.{percentile-Reaches}
use pubsuber.Io.{returned, read_clock}
use pubsuber.Algorithms.{PackSet, give_keys, give_me_the_keys}
use pubsuber.ModAckIterator.State.{
  AckWatchDescriptor, extend_in, min_ack_deadline, max_ack_deadline, so_many_milliseconds,
  ModAckIterator, ack_deadline,
}
use pubsuber.ModAckIterator.Requests.{
  Session, is_due, extend_due, modify_watched, modify_ack_deadlines,
}

module _ (fl : Float) where
  -- `AckDeadline` of a histogram with a cell that counts at most 2^53 values does not throw, and
  -- lies between the service's limits. The floating-point numbers meet their laws.
  pub ack_deadline_bounds :
      (it : ModAckIterator fl)
      → IsIeee fl
      → 0 < length it.ack_dist.hist
      → total it.ack_dist.hist ≤ 2 ^ 53
      → (dl : ℕ) × (ack_deadline fl it ≡ some dl)
        × (min_ack_deadline ≤ dl)
        × (dl ≤ max_ack_deadline)
  unfolding ack_deadline
  ack_deadline_bounds it ieee filled few =
      let (i, found, reaches) =
        percentile-Reaches fl it.ack_dist (fl.decimal 99 2) ieee ieee.percentile_low
          ieee.percentile_high filled few in
      (
        min (max i min_ack_deadline) max_ack_deadline,
        rw (found, ack_deadline),
        omega arith,
        omega arith,
      )

-- The deadline lies further ahead than the grace period, in whole milliseconds.
abbrev pub IsAhead : ℕ → ℕ → AckWatchDescriptor → Type 0
IsAhead grace now d = now + (grace * 1000 + 1) * 10 ^ 6 ≤ d.next_ack

pub is_due_ahead :
    (grace now sleep : ℕ) (d : AckWatchDescriptor)
    → IsAhead grace now d
    → is_due grace now d sleep ≡ (false, min sleep ((d.next_ack - now) / 10 ^ 6))
unfolding is_due extend_in
is_due_ahead grace now sleep d h = ground arith

pub is_due_behind :
    (grace now sleep : ℕ) (d : AckWatchDescriptor)
    → ¬ IsAhead grace now d
    → is_due grace now d sleep ≡ (true, sleep)
unfolding is_due extend_in
is_due_behind grace now sleep d h = ground arith

-- What the visit of the watched ids gives where none is due: no id, and a time that is below each
-- deadline and above the grace period.
abbrev SleepsIn : ℕ → ℕ → ℕ → PackSet → Map AckWatchDescriptor → PackSet × ℕ → Type 0
SleepsIn grace now s packs rest (packs', s') =
    (packs' ≡ packs)
    × (s' ≤ s)
    × (grace * 1000 < s')
    × All (λ p. now + s' * 10 ^ 6 ≤ p.1.next_ack) rest

All-next_ack_mono :
    (now a b : ℕ) (rest : Map AckWatchDescriptor)
    → a ≤ b
    → All (λ p. now + b * 10 ^ 6 ≤ p.1.next_ack) rest
    → All (λ p. now + a * 10 ^ 6 ≤ p.1.next_ack) rest
All-next_ack_mono now a b [] h k = tt
All-next_ack_mono now a b (p ∷ rest) h k = (omega arith, All-next_ack_mono now a b rest h k.1)

give_keys_skip :
    (grace now s s' : ℕ) (ids rest : Map AckWatchDescriptor) (packs : PackSet) (k : Bytes)
    (d : AckWatchDescriptor)
    → is_due grace now d s ≡ (false, s')
    → give_keys (is_due grace now) ids ((k, d) ∷ rest) packs s
      ≡ give_keys (is_due grace now) ids rest packs s'
unfolding give_keys
give_keys_skip grace now s s' ids rest packs k d e = rw (e, give_keys)

give_keys_end :
    (grace now s : ℕ) (ids : Map AckWatchDescriptor) (packs : PackSet)
    → give_keys (is_due grace now) ids [] packs s ≡ (packs, s)
unfolding give_keys
give_keys_end grace now s ids packs = refl

give_keys_ahead :
    (grace now s : ℕ) (ids rest : Map AckWatchDescriptor) (packs : PackSet)
    → All (λ p. IsAhead grace now p.1) rest
    → grace * 1000 < s
    → SleepsIn grace now s packs rest (give_keys (is_due grace now) ids rest packs s)
give_keys_ahead grace now s ids [] packs ahead h =
    rw (give_keys_end grace now s ids packs) (refl, omega arith, h, tt)
give_keys_ahead grace now s ids ((k, d) ∷ rest) packs ahead h =
    let s' : ℕ = min s ((d.next_ack - now) / 10 ^ 6) in
    let (same, below, above, early_enough) =
      give_keys_ahead grace now s' ids rest packs ahead.1 (omega arith) in
    subst (SleepsIn grace now s packs ((k, d) ∷ rest))
      (sym (give_keys_skip grace now s s' ids rest packs k d (is_due_ahead grace now s d ahead.0)))
      (same, omega arith, above, (omega arith, early_enough))

module _ (fl : Float) where
  modify_watched_quiet :
      (dl grace : ℕ) (ids : Map AckWatchDescriptor) (s : Session fl)
      → ids ≢ []
      → let (now, world) = read_clock s.world in
        let (packs, sleep) = give_me_the_keys (is_due grace now) ids [] so_many_milliseconds in
        packs ≡ []
        → modify_watched fl ids dl grace s ≡ returned (sleep / 2) (record s { world = world })
  unfolding modify_watched
  modify_watched_quiet dl grace [] s watched e = absurd (watched refl)
  modify_watched_quiet dl grace (w ∷ ids) s watched e = rw (e, extend_due)

  -- If some id is watched and every watched deadline lies further ahead than the grace period,
  -- which is shorter than the longest sleep, `ModifyAckDeadlines` sends nothing, and the
  -- acknowledgement thread is to sleep for `ms` milliseconds: half as long as the time to the first
  -- deadline at most, and half the grace period at least.
  pub sleep_before_deadlines :
      (dl grace : ℕ) (s : Session fl)
      → grace * 1000 < so_many_milliseconds
      → s.it.keep_alive_ack_ids ≢ []
      → let (now, world) = read_clock s.world in
        All (λ p. IsAhead grace now p.1) s.it.keep_alive_ack_ids
        → (ms : ℕ) × (modify_ack_deadlines fl dl grace s ≡ returned ms (record s { world = world }))
          × (grace * 1000 ≤ 2 * ms)
          × All (λ p. now + 2 * ms * 10 ^ 6 ≤ p.1.next_ack) s.it.keep_alive_ack_ids
  unfolding modify_ack_deadlines give_me_the_keys
  sleep_before_deadlines dl grace s small watched ahead =
      let now : ℕ = s.world.clock s.world.reads in
      let ids : Map AckWatchDescriptor = s.it.keep_alive_ack_ids in
      let sleep : ℕ = (give_keys (is_due grace now) ids ids [] so_many_milliseconds).1 in
      let (none_due, below, above, early_enough) =
        give_keys_ahead grace now so_many_milliseconds ids ids [] ahead small in
      (
        sleep / 2,
        modify_watched_quiet dl grace ids s watched none_due,
        omega (arith, above),
        All-next_ack_mono now (2 * (sleep / 2)) sleep ids (omega arith) early_enough,
      )
