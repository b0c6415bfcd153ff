-- ===== src/Retriable/Spends.antt =====
-- What a call of pubsuber/src/Retriable.h leaves behind: the log grows by its own request only, and
-- each attempt uses up one answer of the server.
use pubsuber.Base.{ℕ, ◌+◌, ◌≡◌, ◌⊎◌, inl, inr, refl, ◌∙◌, ap, List, ◌∷◌, length, arith}
use pubsuber.Double.{Float}
use pubsuber.ExpoBackoff.{ExpoBackoff}
use pubsuber.Io.{StatusCode, Request, Reply, World, After, Requested, sends, read_clock}
use pubsuber.Retriable.Loop.{Rule}
use pubsuber.Retriable.Loop
use pubsuber.Retriable.{Policies, attempt_call, make_call}

-- From `w` to `w'` nothing was done but send requests in `P`, and sleep.
pub record Grown (P : Request → Type 0) (w w' : World) : Type 0 where
  pub keeps : (r : Request) → Requested r w.log → Requested r w'.log
  pub only : (r : Request) → Requested r w'.log → Requested r w.log ⊎ P r
  pub spent : sends w'.log + length w'.replies ≡ sends w.log + length w.replies
  pub same_clock : w'.clock ≡ w.clock

pub Grown-refl : {P : Request → Type 0} (w : World) → Grown P w w
Grown-refl w = record { keeps = λ r h. h; only = λ r h. inl h; spent = refl; same_clock = refl }

pub Grown-trans : {P : Request → Type 0} {u v w : World} → Grown P u v → Grown P v w → Grown P u w
Grown-trans {P} {u} {v} {w} g h = record {
  keeps = λ r k. h.keeps r (g.keeps r k);
  only = λ r k. either r (h.only r k);
  spent = h.spent ∙ g.spent;
  same_clock = h.same_clock ∙ g.same_clock;
}
  where
    either : (r : Request) → Requested r v.log ⊎ P r → Requested r u.log ⊎ P r
    either r (inl k) = g.only r k
    either r (inr p) = inr p

pub Grown-mono :
    {P Q : Request → Type 0} {v w : World} → ((r : Request) → P r → Q r) → Grown P v w → Grown Q v w
Grown-mono {P} {Q} {v} {w} f g = record {
  keeps = g.keeps;
  only = λ r k. either r (g.only r k);
  spent = g.spent;
  same_clock = g.same_clock;
}
  where
    either : (r : Request) → Requested r v.log ⊎ P r → Requested r v.log ⊎ Q r
    either r (inl k) = inl k
    either r (inr p) = inr (f r p)

module _ (fl : Float) (request : Request) (p : Policies fl) where
  abbrev pub Own : Request → Type 0
  Own r = request ≡ r

  record Kept (w₀ : World) (rs : List Reply) (b : ExpoBackoff fl) (timeout : ℕ) (last : StatusCode)
      (w : World) : Type 0 where
    grown : Grown Own w₀ w
    left : w.replies ≡ rs

  after_attempt :
      (w₀ w : World) (r : Reply) (rs : List Reply) (timeout : ℕ)
      → Grown Own w₀ w
      → w.replies ≡ r ∷ rs
      → Grown Own w₀ (attempt_call fl request timeout (read_clock w).1 rs).1
  after_attempt w₀ w r rs timeout g e = record {
    keeps = λ q k. inr (g.keeps q k);
    only = λ q k. either q k;
    spent = omega (arith, ap length e, g.spent);
    same_clock = g.same_clock;
  }
    where
      either : (q : Request) → (request ≡ q) ⊎ Requested q w.log → Requested q w₀.log ⊎ Own q
      either q (inl own) = inr own
      either q (inr k) = g.only q k

  Kept-Rule :
      (w₀ : World) (start : ℕ)
      → Rule fl request p start
          (Kept w₀)
          (λ r w. Grown Own w₀ w × Requested request w.log)
          (λ e w. Grown Own w₀ w)
          (Unit {0})
  Kept-Rule w₀ start = record {
    give_up = λ rs b timeout last w h e. record {
      keeps = h.grown.keeps;
      only = h.grown.only;
      spent = h.grown.spent;
      same_clock = h.grown.same_clock;
    };
    no_answer = λ b timeout last w h e. tt;
    answer =
        λ r rs b timeout last w h e f. (after_attempt w₀ w r rs timeout h.grown h.left, inl refl);
    retry = λ r rs b timeout timeout' last w h e f.
        let g : Grown Own w₀ (attempt_call fl request timeout (read_clock w).1 rs).1 =
          after_attempt w₀ w r rs timeout h.grown h.left in
        record {
          grown = record {
            keeps = g.keeps;
            only = g.only;
            spent = g.spent;
            same_clock = g.same_clock;
          };
          left = refl;
        };
  }

  -- A call sends its own request and nothing else, at least once if it returns; each time uses up
  -- one of the server's answers.
  pub make_call-Grown :
      (w : World)
      → After
          (λ r w'. Grown Own w w' × Requested request w'.log)
          (λ e w'. Grown Own w w')
          (make_call fl request p w)
  unfolding make_call
  make_call-Grown w =
      Loop.attempts-Holds fl request p _ (Kept w)
        (λ r w'. Grown Own w w' × Requested request w'.log) (λ e w'. Grown Own w w') Unit
        (Kept-Rule w _) w.replies _ _ _ _
        (record {
          grown = record { keeps = λ r h. h; only = λ r h. inl h; spent = refl; same_clock = refl };
          left = refl;
        })
