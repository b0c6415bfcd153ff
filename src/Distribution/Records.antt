-- ===== src/Distribution/Records.antt =====
-- What `Record` of pubsuber/src/Distribution.h counts.
use pubsuber.Base.{
  ℕ, zero, suc, ◌+◌, ◌-◌, ◌%◌, ◌^◌, ◌<◌, ◌≡◌, List, [], ◌∷◌, some, length, min, leb, arith, refl,
  get_elem?, if◌then◌else◌, ◌==◌,
}
use pubsuber.Distribution.{Distribution, increment, record_value}

-- The number of values that a histogram has counted.
unfoldable pub total : List ℕ → ℕ
total [] = 0
total (x ∷ xs) = x + total xs

length-increment : (i : ℕ) (xs : List ℕ) → length (increment i xs) ≡ length xs
unfolding increment
length-increment i [] = refl
length-increment zero (x ∷ xs) = refl
length-increment (suc i) (x ∷ xs) = omega (arith, length-increment i xs)

total-increment :
    (i : ℕ) (xs : List ℕ)
    → i < length xs
    → total xs + 1 < 2 ^ 64
    → total (increment i xs) ≡ total xs + 1
unfolding increment total
total-increment i [] h k = elim h [ ]
total-increment zero (x ∷ xs) h k = omega arith
total-increment (suc i) (x ∷ xs) h k =
    omega (arith, total-increment i xs (omega arith) (omega arith))

increment_cells :
    (i j : ℕ) (xs : List ℕ) (n : ℕ)
    → get_elem? xs j ≡ some n
    → get_elem? (increment i xs) j ≡ some (if i == j then (n + 1) % 2 ^ 64 else n)
unfolding increment
increment_cells i j [] n e = ground arith
increment_cells zero zero (x ∷ xs) n e = ground arith
increment_cells zero (suc j) (x ∷ xs) n e = ground arith
increment_cells (suc i) zero (x ∷ xs) n e = ground arith
increment_cells (suc i) (suc j) (x ∷ xs) n e = ground (arith, increment_cells i j xs n e)

lt_of_get_elem? : (j n : ℕ) (xs : List ℕ) → get_elem? xs j ≡ some n → j < length xs
lt_of_get_elem? j n [] e = cc
lt_of_get_elem? zero n (x ∷ xs) e = omega arith
lt_of_get_elem? (suc j) n (x ∷ xs) e = omega (arith, lt_of_get_elem? j n xs e)

clamped : (v n : ℕ) → min v (n - 1) ≡ (if leb n v then n - 1 else v)
clamped v n = ground arith

-- While fewer than 2^64 values are counted, `Record` does not throw. It raises one cell by 1, the
-- value's own or the last one for a value past the end, keeps every other cell, and adds one to the
-- number of values.
pub record_value_counts :
    (v j n : ℕ) (d : Distribution)
    → total d.hist + 1 < 2 ^ 64
    → get_elem? d.hist j ≡ some n
    → (d' : Distribution) × (record_value v d ≡ some d')
      × (length d'.hist ≡ length d.hist)
      × (get_elem? d'.hist j
          ≡ some (if min v (length d.hist - 1) == j then (n + 1) % 2 ^ 64 else n))
      × (total d'.hist ≡ total d.hist + 1)
unfolding record_value
record_value_counts v j n d h e =
    let i : ℕ = min v (length d.hist - 1) in
    (
      record { hist = increment i d.hist },
      ground (arith, clamped v (length d.hist)),
      length-increment i d.hist,
      increment_cells i j d.hist n e,
      total-increment i d.hist (omega (arith, lt_of_get_elem? j n d.hist e)) h,
    )
