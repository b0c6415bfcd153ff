-- ===== src/Executor/Shares.antt =====
-- `AddIterator` of pubsuber/src/Executor.cpp: both threads come to work with one new iterator.
use pubsuber.Base.{
  ℕ, zero, suc, ◌≡◌, ◌≢◌, refl, List, [], ◌∷◌, ◌++◌, Bytes, true, none, some, get_elem?, length,
  arith,
}
use pubsuber.Containers.{lookup}
use pubsuber.Containers.Maps.{lookup-insert}
use pubsuber.Double.{Float}
use pubsuber.Io.{returned}
use pubsuber.ModAckIterator.{ModAckIterator}
use pubsuber.ModAckIterator
use pubsuber.ThreadDataBlock.{ThreadDataBlock}
use pubsuber.ThreadDataBlock
use pubsuber.ThreadDataBlock.Turns.{turn, lookup-turn}
use pubsuber.Executor.{Puller, Executor, add_iterator}

get-append_last :
    {A : Type 0} (xs : List A) (x : A) → get_elem? (xs ++ (x ∷ [])) (length xs) ≡ some x
get-append_last [] x = refl
get-append_last (y ∷ xs) x = get-append_last xs x

get-append_old :
    {A : Type 0} (xs ys : List A) (i : ℕ) (x : A)
    → get_elem? xs i ≡ some x
    → (get_elem? (xs ++ ys) i ≡ some x) × (i ≢ length xs)
get-append_old [] ys i x e = absurd (cc)
get-append_old (z ∷ xs) ys zero x e = (e, λ k. omega (arith, k))
get-append_old (z ∷ xs) ys (suc i) x e =
    let (same, other) = get-append_old xs ys i x e in (same, λ k. other (omega (arith, k)))

turn-added :
    {I : Type 0} (n : Bytes) (it : I) (b : ThreadDataBlock I)
    → lookup n b.active_iterators ≡ none
    → lookup n (turn (ThreadDataBlock.add_iterator n it b)).active_iterators ≡ some it
unfolding ThreadDataBlock.add_iterator
turn-added n it b e = ground (
  arith,
  lookup-turn n (ThreadDataBlock.add_iterator n it b),
  lookup-insert n n it b.input_iterators,
)

module _ (fl : Float) (Callback : Type 0) where
  -- Both threads work on the name, the pull thread with the callback, and with one iterator, which is new:
  -- of that name, with nothing watched or pending, while the executor lives.
  pub record IsShared (n : Bytes) (callback : Callback) (e e' : Executor fl Callback) : Type 0 where
    pub puller : Puller fl Callback
    pub it : ModAckIterator fl
    pub pulls : lookup n (turn e'.pull_thread).active_iterators ≡ some puller
    pub acks : lookup n (turn e'.ack_thread).active_iterators ≡ some puller.ack_iterator
    pub calls : puller.callback ≡ callback
    pub pulls_name : puller.iterator.subscription_name ≡ n
    pub stored : get_elem? e'.store puller.ack_iterator ≡ some it
    pub named : it.subscription_name ≡ n
    pub alive : it.has_executor ≡ true
    pub policies : it.policies ≡ e.policies
    pub no_input : it.input_ack_ids ≡ []
    pub no_acks : it.pending_ack_ids ≡ []
    pub no_nacks : it.pending_nack_ids ≡ []
    pub unwatched : it.keep_alive_ack_ids ≡ []
    pub others :
        (place : ℕ) (old : ModAckIterator fl)
        → get_elem? e.store place ≡ some old
        → (get_elem? e'.store place ≡ some old) × (place ≢ puller.ack_iterator)

  -- If neither thread works on a subscription, `AddIterator` returns, and after the next turn of each
  -- thread both work on it, with one iterator for the two of them, which is new, and the callback. The
  -- iterators that were there are as they were, and none of them is the new one.
  pub add_iterator-IsShared :
      (c : ℕ) (name : Bytes) (callback : Callback) (raw : List ℕ) (e : Executor fl Callback)
      → lookup (c ∷ name) e.pull_thread.active_iterators ≡ none
      → lookup (c ∷ name) e.ack_thread.active_iterators ≡ none
      → (e' : Executor fl Callback) × (add_iterator fl Callback (c ∷ name) (some callback) raw e
          ≡ returned tt e')
        × IsShared (c ∷ name) callback e e'
  unfolding add_iterator ModAckIterator.create
  add_iterator-IsShared c name callback raw e no_pull no_ack = (
    _,
    refl,
    record {
      puller = _;
      it = _;
      pulls = turn-added (c ∷ name) _ e.pull_thread no_pull;
      acks = turn-added (c ∷ name) (length e.store) e.ack_thread no_ack;
      calls = refl;
      pulls_name = refl;
      stored = get-append_last e.store _;
      named = refl;
      alive = refl;
      policies = refl;
      no_input = refl;
      no_acks = refl;
      no_nacks = refl;
      unwatched = refl;
      others = λ place old f. get-append_old e.store _ place old f;
    },
  )
