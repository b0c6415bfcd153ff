-- ===== src/Retriable/Answers.antt =====
-- Which answer of the server a call of pubsuber/src/Retriable.h gives back.
use pubsuber.Base.{
  ℕ, ◌≡◌, refl, sym, ◌∙◌, ap, List, [], ◌∷◌, ◌++◌, All, Bool, true, false, Option, none, some,
  if◌then◌else◌,
}
use mathlib.Core.List.{append_assoc}
use pubsuber.Double.{Float}
use pubsuber.ExpoBackoff.{ExpoBackoff}
use pubsuber.Io.{StatusCode, ErrorCode, from_status, Request, Reply, World, After}
use pubsuber.Retriable.Loop
use pubsuber.Retriable.Loop.{Rule}
use pubsuber.Retriable.{Policies, CallResult, retry_timeout, make_call}

abbrev pub is_retried : StatusCode → Bool
is_retried StatusCode.deadline_exceeded = true
is_retried StatusCode.unavailable = true
is_retried _ = false

-- The first answer that ends a call, and the answers behind it.
abbrev pub final_answer : List Reply → Option (Reply × List Reply)
final_answer [] = none
final_answer (r ∷ rs) = if is_retried r.status.error_code then final_answer rs else some (r, rs)

-- The code of the last of some answers.
abbrev pub last_code : StatusCode → List Reply → StatusCode
last_code code [] = code
last_code code (r ∷ rs) = last_code r.status.error_code rs

-- A call was given up: each answer that it used up was one to retry, and it throws the code of the last
-- of them, or OK if there was none.
abbrev pub IsGaveUp : List Reply → ErrorCode → World → Type 0
IsGaveUp replies c w =
    (tried : List Reply) × (replies ≡ tried ++ w.replies)
    × All (λ r. is_retried r.status.error_code ≡ true) tried
    × (c ≡ from_status (last_code StatusCode.ok tried))

All-snoc :
    {A : Type 0} (P : A → Type 0) (xs : List A) (y : A) → All P xs → P y → All P (xs ++ (y ∷ []))
All-snoc P [] y h k = (k, tt)
All-snoc P (x ∷ xs) y h k = (h.0, All-snoc P xs y h.1 k)

last_code-snoc :
    (code : StatusCode) (rs : List Reply) (r : Reply)
    → last_code code (rs ++ (r ∷ [])) ≡ r.status.error_code
last_code-snoc code [] r = refl
last_code-snoc code (q ∷ rs) r = last_code-snoc q.status.error_code rs r

abbrev pub reply_of : CallResult → Reply
reply_of r = record { status = r.status; response = r.response }

is_retried-none : (c : StatusCode) (t : ℕ) → retry_timeout c t ≡ none → is_retried c ≡ false
is_retried-none StatusCode.ok t e = refl
is_retried-none StatusCode.not_found t e = refl
is_retried-none StatusCode.deadline_exceeded t e = absurd (cc)
is_retried-none StatusCode.unavailable t e = absurd (cc)
is_retried-none (StatusCode.other n) t e = refl

is_retried-some : (c : StatusCode) (t t' : ℕ) → retry_timeout c t ≡ some t' → is_retried c ≡ true
is_retried-some StatusCode.ok t t' e = absurd (cc)
is_retried-some StatusCode.not_found t t' e = absurd (cc)
is_retried-some StatusCode.deadline_exceeded t t' e = refl
is_retried-some StatusCode.unavailable t t' e = refl
is_retried-some (StatusCode.other n) t t' e = absurd (cc)

final_answer-skip :
    (r : Reply) (rs : List Reply)
    → is_retried r.status.error_code ≡ true
    → final_answer (r ∷ rs) ≡ final_answer rs
final_answer-skip r rs e = ap (λ b. if b then final_answer rs else some (r, rs)) e

final_answer-stop :
    (r : Reply) (rs : List Reply)
    → is_retried r.status.error_code ≡ false
    → final_answer (r ∷ rs) ≡ some (r, rs)
final_answer-stop r rs e = ap (λ b. if b then final_answer rs else some (r, rs)) e

module _ (fl : Float) (request : Request) (p : Policies fl) where
  record Waiting (all : List Reply) (rs : List Reply) (b : ExpoBackoff fl) (timeout : ℕ)
      (last : StatusCode) (w : World) : Type 0 where
    same : final_answer all ≡ final_answer rs
    tried : List Reply
    used : all ≡ tried ++ rs
    retried : All (λ r. is_retried r.status.error_code ≡ true) tried
    code : last ≡ last_code StatusCode.ok tried
    left : w.replies ≡ rs

  -- A call that returns gives back the first of the server's answers that is none to retry, and leaves
  -- the answers behind that one. One that throws has used up answers to retry only, and carries the
  -- code of the last of them, or OK if it used up none.
  pub make_call-final_answer :
      (w : World)
      → After
          (λ r w'. final_answer w.replies ≡ some (reply_of r, w'.replies))
          (λ e w'. IsGaveUp w.replies e.code w')
          (make_call fl request p w)
  unfolding make_call
  make_call-final_answer w =
      Loop.attempts-Holds fl request p _ (Waiting w.replies)
        (λ r w'. final_answer w.replies ≡ some (reply_of r, w'.replies))
        (λ e w'. IsGaveUp w.replies e.code w') Unit
        (record {
          give_up = λ rs b timeout last w' h e. (
            h.tried,
            h.used ∙ ap (λ q. h.tried ++ q) (sym h.left),
            h.retried,
            ap from_status h.code,
          );
          no_answer = λ b timeout last w' h e. tt;
          answer = λ r rs b timeout last w' h e f.
              h.same ∙ final_answer-stop r rs (is_retried-none r.status.error_code timeout f);
          retry = λ r rs b timeout timeout' last w' h e f.
              let again = is_retried-some r.status.error_code timeout timeout' f in
              record {
                same = h.same ∙ final_answer-skip r rs again;
                tried = h.tried ++ (r ∷ []);
                used = h.used ∙ sym (append_assoc h.tried (r ∷ []) rs);
                retried = All-snoc _ h.tried r h.retried again;
                code = sym (last_code-snoc StatusCode.ok h.tried r);
                left = refl;
              };
        })
        w.replies _ _ _ _
        (record { same = refl; tried = []; used = refl; retried = tt; code = refl; left = refl })
