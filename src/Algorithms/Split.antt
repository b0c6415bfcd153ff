-- ===== src/Algorithms/Split.antt =====
-- How `split_request_ids` of pubsuber/src/Algorithms.h cuts a request off a set of ids.
use mathlib.Core.List.{append_assoc, flatten}
use pubsuber.Base.{
  ℕ, ◌+◌, ◌%◌, ◌^◌, ◌≤◌, ◌<◌, ◌≡◌, ◌≢◌, ◌⊎◌, inl, refl, ◌∙◌, List, [], zero, suc, ◌∷◌, ◌++◌, Bytes,
  length, length-append, ap, ◌∙◌, All, arith,
}
use pubsuber.Algorithms.{req_fixed_overhead, overhead_per_id, take_ids, split_request_ids}

pub All-append_right {ℓ} :
    {A : Type 0} (P : A → Type ℓ) (xs ys : List A) → All P (xs ++ ys) → All P ys
All-append_right P [] ys h = h
All-append_right P (x ∷ xs) ys h = All-append_right P xs ys h.1

module _ {A : Type 0} (id : A → Bytes) where
  -- The bytes that the ids of a list take in a request.
  pub payload : List A → ℕ
  payload [] = 0
  payload (x ∷ xs) = overhead_per_id + length (id x) + payload xs

  -- The size of a request with these ids, as `split_request_ids` estimates it.
  abbrev pub request_size : List A → ℕ
  request_size xs = req_fixed_overhead + payload xs

  payload-append : (xs ys : List A) → payload (xs ++ ys) ≡ payload xs + payload ys
  unfolding payload
  payload-append [] ys = omega arith
  payload-append (x ∷ xs) ys = omega (arith, payload-append xs ys)

  -- An id this short does not make the 32-bit size wrap around.
  abbrev pub IsShort : ℕ → A → Type 0
  IsShort max_size x = max_size + overhead_per_id + length (id x) ≤ 2 ^ 32

  take_ids-append :
      (max_size size : ℕ) (xs sent : List A)
      → let (rest, to_send) = take_ids id max_size size xs sent in to_send ++ rest ≡ sent ++ xs
  unfolding take_ids
  take_ids-append max_size size [] sent = refl
  take_ids-append max_size size (x ∷ xs) sent = ground (
    arith,
    take_ids-append max_size ((size + (overhead_per_id + length (id x))) % 2 ^ 32) xs
        (sent ++ x ∷ []),
    append_assoc sent (x ∷ []) xs,
  )

  -- `split_request_ids` loses, makes up and reorders nothing.
  pub split-append :
      (ids : List A) (max_size : ℕ)
      → let (rest, to_send) = split_request_ids id ids max_size in to_send ++ rest ≡ ids
  unfolding split_request_ids
  split-append ids max_size = take_ids-append max_size req_fixed_overhead ids []

  -- What is taken fits, and what is left would not.
  abbrev pub Greedy : ℕ → List A → List A → Type 0
  Greedy max_size [] to_send = Unit
  Greedy max_size (x ∷ rest) to_send = max_size ≤ request_size (to_send ++ x ∷ [])

  take_ids_fits :
      (max_size size : ℕ) (xs sent : List A)
      → All (IsShort max_size) xs
      → size ≡ request_size sent
      → (sent ≡ []) ⊎ (size < max_size)
      → let (rest, to_send) = take_ids id max_size size xs sent in
        ((to_send ≡ []) ⊎ (request_size to_send < max_size)) × Greedy max_size rest to_send
  unfolding take_ids payload
  take_ids_fits max_size size [] sent short e h = ground arith
  take_ids_fits max_size size (x ∷ xs) sent short e h = ground (
    arith,
    payload-append sent (x ∷ []),
    take_ids_fits max_size ((size + (overhead_per_id + length (id x))) % 2 ^ 32) xs
        (sent ++ x ∷ []),
  )

  -- If no id makes the 32-bit size wrap around, a request that holds an id is smaller than the
  -- maximum, and the first id that is left would not fit in it.
  pub split_fits :
      (ids : List A) (max_size : ℕ)
      → All (IsShort max_size) ids
      → let (rest, to_send) = split_request_ids id ids max_size in
        ((to_send ≡ []) ⊎ (request_size to_send < max_size)) × Greedy max_size rest to_send
  unfolding split_request_ids payload
  split_fits ids max_size short =
      take_ids_fits max_size req_fixed_overhead ids [] short (omega arith) (inl refl)

  -- An id that fits in a request of its own: `split_request_ids` gets past it.
  abbrev pub Fits : ℕ → A → Type 0
  Fits max_size x =
      (req_fixed_overhead + overhead_per_id + length (id x) < max_size) × IsShort max_size x

  take_ids-length-le :
      (max_size size : ℕ) (xs sent : List A)
      → length (take_ids id max_size size xs sent).0 ≤ length xs
  unfolding take_ids
  take_ids-length-le max_size size [] sent = omega arith
  take_ids-length-le max_size size (x ∷ xs) sent = ground (
    arith,
    take_ids-length-le max_size ((size + (overhead_per_id + length (id x))) % 2 ^ 32) xs
        (sent ++ x ∷ []),
  )

  -- If the first id fits on its own, fewer ids are left.
  pub split_progress :
      (x : A) (ids : List A) (max_size : ℕ)
      → Fits max_size x
      → length (split_request_ids id (x ∷ ids) max_size).0 ≤ length ids
  unfolding split_request_ids
  split_progress x ids max_size fits = ground (
    arith,
    take_ids-length-le max_size ((req_fixed_overhead + (overhead_per_id + length (id x))) % 2 ^ 32)
        ids (x ∷ []),
  )

  -- An id that is too long for a request of its own, but does not make the 32-bit size wrap around,
  -- is not taken, and stops all that stand behind it.
  pub split_stuck :
      (x : A) (ids : List A) (max_size : ℕ)
      → max_size ≤ req_fixed_overhead + overhead_per_id + length (id x)
      → IsShort max_size x
      → split_request_ids id (x ∷ ids) max_size ≡ (x ∷ ids, [])
  unfolding split_request_ids
  split_stuck x ids max_size long short = ground arith

  -- The requests that `while (!ids.empty()) split_request_ids(…)` cuts a set into, with `rounds` as a
  -- limit on the rounds, and what is left.
  pub requests : ℕ → ℕ → List A → List (List A) × List A
  requests zero max_size ids = ([], ids)
  requests (suc rounds) max_size [] = ([], [])
  requests (suc rounds) max_size (x ∷ ids) =
      let (rest, to_send) = split_request_ids id (x ∷ ids) max_size in
      let (later, left) = requests rounds max_size rest in (to_send ∷ later, left)

  All-Fits-IsShort :
      (max_size : ℕ) (ids : List A) → All (Fits max_size) ids → All (IsShort max_size) ids
  All-Fits-IsShort max_size [] h = tt
  All-Fits-IsShort max_size (x ∷ ids) h = (h.0.1, All-Fits-IsShort max_size ids h.1)

  -- The rest of a set whose ids all fit is such a set.
  pub split-All-Fits :
      (ids : List A) (max_size : ℕ)
      → All (Fits max_size) ids
      → All (Fits max_size) (split_request_ids id ids max_size).0
  split-All-Fits ids max_size fits =
      let (rest, to_send) = split_request_ids id ids max_size in
      All-append_right (Fits max_size) to_send rest (rw (split-append ids max_size) fits)

  -- The first request of a set whose first id fits holds that id.
  pub split_takes :
      (x : A) (ids : List A) (max_size : ℕ)
      → Fits max_size x
      → (split_request_ids id (x ∷ ids) max_size).1 ≢ []
  split_takes x ids max_size fits e =
      let (rest, to_send) = split_request_ids id (x ∷ ids) max_size in
      let whole : to_send ++ rest ≡ x ∷ ids = split-append (x ∷ ids) max_size in
      omega (
        arith,
        ap length whole,
        length-append to_send rest,
        ap length e,
        split_progress x ids max_size fits,
      )

  -- A request that is worth sending, and not too large.
  abbrev pub IsRequest : ℕ → List A → Type 0
  IsRequest max_size to_send = (to_send ≢ []) × (request_size to_send < max_size)

  -- If every id fits in a request of its own, and more rounds are given than there are ids, the
  -- loop ends: it cuts every id off once, in requests that hold an id each and are all smaller than
  -- the maximum.
  pub requests_lem :
      (rounds max_size : ℕ) (ids : List A)
      → length ids < rounds
      → All (Fits max_size) ids
      → let (cut, left) = requests rounds max_size ids in
        (left ≡ []) × (flatten cut ≡ ids) × All (IsRequest max_size) cut × (length cut ≤ length ids)
  unfolding requests flatten
  requests_lem zero max_size ids h fits = absurd (omega arith)
  requests_lem (suc rounds) max_size [] h fits = (refl, refl, tt, omega arith)
  requests_lem (suc rounds) max_size (x ∷ ids) h fits =
      let (rest, to_send) = split_request_ids id (x ∷ ids) max_size in
      let shorter : length rest ≤ length ids = split_progress x ids max_size fits.0 in
      let (none_left, all_sent, sizes, few) =
        requests_lem rounds max_size rest (omega arith) (split-All-Fits (x ∷ ids) max_size fits) in
      let (fit, greedy) =
        split_fits (x ∷ ids) max_size (All-Fits-IsShort max_size (x ∷ ids) fits) in
      let nonempty : to_send ≢ [] = split_takes x ids max_size fits.0 in
      let below : request_size to_send < max_size = ground (arith, nonempty) in
      (
        none_left,
        ap (◌++◌ to_send) all_sent ∙ split-append (x ∷ ids) max_size,
        ((nonempty, below), sizes),
        omega arith,
      )
