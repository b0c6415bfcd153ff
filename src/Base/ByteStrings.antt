-- ===== src/Base/ByteStrings.antt =====
-- `std::string`: a sequence of bytes. `text` writes a literal of the source.
use Prim.Native.Nat.{ℕ}
use Prim.Native.Char.{code}
use Prim.Native.String.{String}
use mathlib.Core.Path.{refl}
use mathlib.Core.List.{List, [], ◌∷◌}
use native.Mathlib.Decide.{ℕ_discrete}

abbrev pub Bytes : Type 0
Bytes = List ℕ

abbrev pub text : String → Bytes
text String.[] = []
text (String.◌∷◌ c s) = code c ∷ text s

-- `operator==` on strings, with its proof.
unfoldable pub Bytes_discrete : Discrete Bytes
unfolding ℕ_discrete
Bytes_discrete [] [] = yes refl
Bytes_discrete [] (y ∷ ys) = no (λ e. cc)
Bytes_discrete (x ∷ xs) [] = no (λ e. cc)
Bytes_discrete (x ∷ xs) (y ∷ ys) = elim (ℕ_discrete x y) [
  | no ne ↦ no (λ e. ne (cc))
  | yes p ↦ elim (Bytes_discrete xs ys) [ no ne ↦ no (λ e. ne (cc)) | yes q ↦ yes (cc) ]
]
