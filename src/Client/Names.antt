-- ===== src/Client/Names.antt =====
-- What the client of pubsuber/src/Pubsuber.cpp names, and the policies that it ends up with.
use pubsuber.Base.{◌≡◌, refl, ℕ, List, [], ◌∷◌, ◌++◌, Bytes, text, Occurs, arith, ap, inl, inr}
use pubsuber.Double.{Float}
use pubsuber.ExpoBackoff.{ExponentialBackoffPolicy}
use pubsuber.Retriable.{RetryCountPolicy, MaxRetryTimePolicy, Policies}
use pubsuber.Client.{
  Policy, count_policy, time_policy, backoff_policy, apply, apply_all, topic_name,
  subscription_name,
}

module _ (fl : Float) where
  -- The last policy of a type that was given, or else the default one.
  abbrev pub last_count : List (Policy fl) → RetryCountPolicy → RetryCountPolicy
  last_count [] d = d
  last_count (count_policy c ∷ ps) d = last_count ps c
  last_count (time_policy t ∷ ps) d = last_count ps d
  last_count (backoff_policy b ∷ ps) d = last_count ps d

  abbrev pub last_time : List (Policy fl) → MaxRetryTimePolicy → MaxRetryTimePolicy
  last_time [] d = d
  last_time (count_policy c ∷ ps) d = last_time ps d
  last_time (time_policy t ∷ ps) d = last_time ps t
  last_time (backoff_policy b ∷ ps) d = last_time ps d

  abbrev pub last_backoff :
      List (Policy fl) → ExponentialBackoffPolicy fl → ExponentialBackoffPolicy fl
  last_backoff [] d = d
  last_backoff (count_policy c ∷ ps) d = last_backoff ps d
  last_backoff (time_policy t ∷ ps) d = last_backoff ps d
  last_backoff (backoff_policy b ∷ ps) d = last_backoff ps b

  -- The policies may be given in any order: each type of policy is the last one of its type that was
  -- given, or the one from before if none of its type was.
  pub apply_all-last :
      (ps : List (Policy fl)) (p : Policies fl)
      → apply_all fl ps p ≡ record {
        count_policy = last_count ps p.count_policy;
        time_policy = last_time ps p.time_policy;
        backoff_policy = last_backoff ps p.backoff_policy;
      }
  unfolding apply_all apply
  apply_all-last [] p = refl
  apply_all-last (count_policy c ∷ ps) p = apply_all-last ps (apply fl (count_policy c) p)
  apply_all-last (time_policy t ∷ ps) p = apply_all-last ps (apply fl (time_policy t) p)
  apply_all-last (backoff_policy b ∷ ps) p = apply_all-last ps (apply fl (backoff_policy b) p)

abbrev pub slash : ℕ
slash = 47

-- A name is cut at its first slash.
cut_at_slash :
    (p q r s : Bytes)
    → ¬ Occurs slash p
    → ¬ Occurs slash q
    → p ++ (slash ∷ r) ≡ q ++ (slash ∷ s)
    → (p ≡ q) × (r ≡ s)
cut_at_slash [] [] r s np nq e = (refl, cc)
cut_at_slash [] (y ∷ q) r s np nq e = absurd (nq (inl (cc)))
cut_at_slash (x ∷ p) [] r s np nq e = absurd (np (inl (cc)))
cut_at_slash (x ∷ p) (y ∷ q) r s np nq e =
    let (e₁, e₂) = cut_at_slash p q r s (λ o. np (inr o)) (λ o. nq (inr o)) (cc) in (cc, e₂)

first : Bytes → ℕ
first [] = 0
first (b ∷ bs) = b

t_not_s : {xs ys : Bytes} → ¬ (text "topics/" ++ xs ≡ text "subscriptions/" ++ ys)
unfolding first
t_not_s e = apart (ap first e)
  where
    apart : ¬ (◌≡◌ {A = ℕ} 116 115)
    apart e = omega arith

module _ (fl : Float) (Callback : Type 0) where
  -- Two projects without a slash: the full names of topics are the same only for the same topic of
  -- the same project.
  pub topic_name-injective :
      (p q id id' : Bytes)
      → ¬ Occurs slash p
      → ¬ Occurs slash q
      → topic_name fl Callback p id ≡ topic_name fl Callback q id'
      → (p ≡ q) × (id ≡ id')
  unfolding topic_name
  topic_name-injective p q id id' np nq e =
      let (e₁, e₂) = cut_at_slash p q (text "topics/" ++ id) (text "topics/" ++ id') np nq (cc) in
      (e₁, cc)

  -- Without a slash in the projects, a topic and a subscription never have the same full name.
  pub topic_name-subscription_name :
      (p q id id' : Bytes)
      → ¬ Occurs slash p
      → ¬ Occurs slash q
      → ¬ (topic_name fl Callback p id ≡ subscription_name fl Callback q id')
  unfolding topic_name subscription_name
  topic_name-subscription_name p q id id' np nq e =
      let (e₁, e₂) =
        cut_at_slash p q (text "topics/" ++ id) (text "subscriptions/" ++ id') np nq (cc) in
      absurd (t_not_s e₂)
