-- ===== src/Algorithms/Tests.antt =====
-- The theorems on pubsuber/src/Algorithms.h at concrete ids.
use pubsuber.Base.{
  ℕ, ◌+◌, ◌≤◌, ◌≡◌, refl, List, [], ◌∷◌, Bytes, text, Bool, All, arith, length, ltb,
}
use mathlib.Core.List.{flatten}
use pubsuber.Containers.{Map}
use pubsuber.Algorithms.{split_request_ids}
use pubsuber.Algorithms.Split.{IsRequest, requests, requests_lem}

abbrev self : Bytes → Bytes
self k = k

abbrev three_ids : List Bytes
three_ids = text "id1" ∷ text "id2" ∷ text "id3" ∷ []

-- Two ids of three bytes fit in 115 bytes, and three do not.
two_of_three :
    split_request_ids self three_ids 115 ≡ (text "id3" ∷ [], text "id1" ∷ text "id2" ∷ [])
unfolding split_request_ids
two_of_three = refl

requests_lem_example :
    let (cut, left) = requests self 4 115 three_ids in
    (left ≡ []) × (flatten cut ≡ three_ids) × All (IsRequest self 115) cut × (length cut ≤ 3)
requests_lem_example =
    requests_lem self 4 115 three_ids (omega arith)
      ((omega arith, omega arith), ((omega arith, omega arith), ((omega arith, omega arith), tt)))

abbrev two_numbers : Map ℕ
two_numbers = (text "a", 1) ∷ (text "b", 7) ∷ []

-- The closure takes the numbers below five, and counts its calls.
abbrev below_five : ℕ → ℕ → Bool × ℕ
below_five v calls = (ltb v 5, calls + 1)
