-- ===== src/Retriable/Namer.antt =====
-- `Namer` of pubsuber/src/Retriable.h: the name of a type, cut out of `__PRETTY_FUNCTION__`, the text
-- that the compiler gives for a function template with its argument. The branch for other systems than
-- Windows.
use pubsuber.Base.{
  ℕ, zero, suc, ◌≡◌, refl, ap, [], ◌∷◌, ◌++◌, Bytes, text, Bool, true, false, ◌&&◌, ◌==◌, Option,
  none, some, if◌then◌else◌, length,
}

-- Whether a string starts with a term.
unfoldable pub starts_with : Bytes → Bytes → Bool
starts_with [] s = true
starts_with (t ∷ ts) [] = false
starts_with (t ∷ ts) (c ∷ s) = (t == c) && starts_with ts s

-- `strstr(s, term)`: the string from the first place on at which the term stands; `none` is the null
-- pointer.
unfoldable pub strstr : Bytes → Bytes → Option Bytes
unfolding starts_with
strstr [] term = if starts_with term [] then some [] else none
strstr (c ∷ s) term =
    let later = strstr s term in if starts_with term (c ∷ s) then some (c ∷ s) else later

-- `p + n`; no string is read behind its end here.
unfoldable pub skip : ℕ → Bytes → Bytes
skip zero s = s
skip (suc n) [] = []
skip (suc n) (c ∷ s) = skip n s

-- `buff[strlen(buff) - 1] = '\0'`. Of an empty string the source would write in front of the buffer.
unfoldable pub without_last : Bytes → Bytes
without_last [] = []
without_last (c ∷ []) = []
without_last (c ∷ d ∷ s) = c ∷ without_last (d ∷ s)

abbrev pub open_term : Bytes
open_term = text "NamedParamType = "

abbrev pub close_term : Bytes
close_term = text "]"

-- `Namer<T>::Name()` where `__PRETTY_FUNCTION__` is the argument.
unfoldable pub type_name : Bytes → Bytes
unfolding strstr skip without_last
type_name pretty_function = elim (strstr pretty_function open_term) [
  | none ↦ text "???"
  | some p ↦ without_last (skip (length open_term) p)
]

-- The term stands nowhere in the first part before the rest.
abbrev pub IsFirst : Bytes → Bytes → Type 0
IsFirst [] rest = Unit {0}
IsFirst (c ∷ before) rest =
    (starts_with open_term (c ∷ (before ++ rest)) ≡ false) × IsFirst before rest

strstr-append :
    (before rest : Bytes)
    → IsFirst before rest
    → starts_with open_term rest ≡ true
    → strstr (before ++ rest) open_term ≡ some rest
unfolding strstr starts_with
strstr-append [] [] first here = absurd (cc)
strstr-append [] (c ∷ rest) first here = rw (here, strstr)
strstr-append (c ∷ before) rest first here =
    rw (first.0, strstr) (strstr-append before rest first.1 here)

without_last-append : (s : Bytes) (c : ℕ) → without_last (s ++ (c ∷ [])) ≡ s
unfolding without_last
without_last-append [] c = refl
without_last-append (d ∷ []) c = refl
without_last-append (d ∷ e ∷ s) c = ap (λ t. d ∷ t) (without_last-append (e ∷ s) c)

-- If the compiler writes a text, the term, the name of the type and a bracket, and the term stands
-- nowhere before, then `Name` gives the name of the type back.
pub type_name-append :
    (before name : Bytes)
    → IsFirst before (open_term ++ (name ++ close_term))
    → type_name (before ++ (open_term ++ (name ++ close_term))) ≡ name
unfolding type_name starts_with skip
type_name-append before name first =
    rw (strstr-append before (open_term ++ (name ++ close_term)) first refl, type_name)
      (without_last-append name 93)
