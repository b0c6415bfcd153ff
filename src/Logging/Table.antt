-- ===== src/Logging/Table.antt =====
-- A registry of loggers that meets the documentation of spdlog: a table of names with their levels.
use pubsuber.Base.{ℕ, ◌≡◌, refl, subst, ◌∷◌, Bytes, Bytes_discrete, Option, none, some, ite, arith}
use pubsuber.Containers.{Map, lookup, insert_or_assign}
use pubsuber.Containers.Maps.{lookup-insert}
use pubsuber.Logging.{Spdlog, IsDocumented, Level, info}

abbrev pub registered_name : Bytes → Option Level → Option Bytes
registered_name name none = none
registered_name name (some level) = some name

abbrev pub register_new : Bytes → Map Level → Option Level → Option (Map Level)
register_new name r none = some ((name, info) ∷ r)
register_new name r (some level) = none

-- A logger is its name, and a sink a number.
abbrev pub table : Spdlog
table = record {
  Registry = Map Level;
  Sink = ℕ;
  Logger = Bytes;
  stdout_sink = λ pattern level. 0;
  make_logger = λ name sink. name;
  register_logger = λ name r. register_new name r (lookup name r);
  get = λ name r. registered_name name (lookup name r);
  set_level = λ name level r. insert_or_assign name level r;
}

module _ (name : Bytes) where
  newly :
      (r r' : Map Level) (o : Option Level)
      → register_new name r o ≡ some r'
      → registered_name name (lookup name r') ≡ some name
  unfolding lookup Bytes_discrete
  newly r r' none e =
      let same : (name, info) ∷ r ≡ r' = cc in
      subst (λ m. registered_name name (lookup name m) ≡ some name) same (ground arith)
  newly r r' (some level) e = absurd (cc)

  again :
      (r : Map Level) (l : Bytes) (o : Option Level)
      → registered_name name o ≡ some l
      → register_new name r o ≡ none
  again r l none e = absurd (cc)
  again r l (some level) e = refl

  still :
      (l l' : Bytes) (level : Level) (r : Map Level)
      → registered_name name (lookup name r) ≡ some l'
      → (l'' : Bytes) × (registered_name name (lookup name (insert_or_assign l level r)) ≡ some l'')
  still l l' level r e =
      (name, rw (lookup-insert l name level r) (go (Bytes_discrete l name) (lookup name r) e))
    where
      go :
          {P : Type 0} (d : Dec P) (o : Option Level)
          → registered_name name o ≡ some l'
          → registered_name name (ite d (some level) o) ≡ some name
      go (yes p) o e = refl
      go (no p) none e = absurd (cc)
      go (no p) (some level') e = refl

pub table-IsDocumented : IsDocumented table
table-IsDocumented = record {
  registered = λ name sink r r' e. newly name r r' (lookup name r) e;
  refused = λ name sink l r e. again name r l (lookup name r) e;
  kept = λ name l l' level r e. still name l l' level r e;
}
