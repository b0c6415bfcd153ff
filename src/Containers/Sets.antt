-- ===== src/Containers/Sets.antt =====
-- The laws of the sets of keys.
use pubsuber.Base.{◌≡◌, [], ◌∷◌, Bytes, Bytes_discrete, true, false, ite, arith}
use pubsuber.Containers.{KeySet, contains, set_emplace, set_erase}

pub contains-emplace :
    (k j : Bytes) (s : KeySet)
    → contains j (set_emplace k s) ≡ ite (Bytes_discrete k j) true (contains j s)
unfolding contains set_emplace
contains-emplace k j [] = ground arith
contains-emplace k j (i ∷ s) = ground (arith, contains-emplace k j s)

pub contains-erase :
    (k j : Bytes) (s : KeySet)
    → contains j (set_erase k s) ≡ ite (Bytes_discrete k j) false (contains j s)
unfolding contains set_erase
contains-erase k j [] = ground arith
contains-erase k j (i ∷ s) = ground (arith, contains-erase k j s)
