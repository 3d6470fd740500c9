-- ===== src/Resilience/Retry/Total.antt =====
-- The retry loop ends within its attempts, and at the first attempt that settles the call.
use nexus_rag.Prelude.{
  ℕ, zero, suc, ◌+◌, max, ◌≤◌, ◌<◌, ◌≡◌, ◌⊎◌, inl, inr, refl, Bool, true, false, Option, some, List,
  [], ◌∷◌, ◌++◌, Bool-cases, arith, length, length-append,
}
use mathlib.Core.Path.{subst}
use native.Mathlib.Decide.{ℕ_discrete}
use nexus_rag.Resilience.Retry.{
  Failure, RetryPolicy, Outcome, returns, raises, Done, settled, attempt_from, retry_async, sleep,
}

module _ {V : Type 0} (func : ℕ → Outcome V) (retryable : Failure → Bool) (jitter : ℕ → ℕ) where
  -- The attempt raised an exception that asks for another one.
  abbrev pub AsksAgain : Outcome V → Type 0
  AsksAgain (returns v) = ⊥
  AsksAgain (raises e) = retryable e ≡ true

  -- The loop, begun at the attempt `first`, ended with the result `r`: at an attempt in range that
  -- settles the call, where none before it does, with one sleep for each of those.
  pub record Ends (p : RetryPolicy) (first : ℕ) (slept : List ℕ) (r : Option (Done V))
      : Type 0 where
    pub done : Done V
    pub result : r ≡ some done
    pub not_before : first ≤ done.attempts
    pub within : done.attempts ≤ max p.max_attempts 1
    pub earlier_ask : (m : ℕ) → first ≤ m → m < done.attempts → AsksAgain (func m)
    pub last : (done.attempts ≡ max p.max_attempts 1) ⊎ ¬ (AsksAgain (func done.attempts))
    pub outcome_is : done.outcome ≡ func done.attempts
    pub sleeps_are : length done.sleeps + first ≡ length slept + done.attempts

  settled-last :
      (p : RetryPolicy) (n : ℕ) (o : Outcome V)
      → n ≤ max p.max_attempts 1
      → settled func retryable jitter p n o ≡ true
      → (n ≡ max p.max_attempts 1) ⊎ ¬ (AsksAgain o)
  unfolding settled
  settled-last p n (returns v) l h = inr (λ a. a)
  settled-last p n (raises e) l h = ground arith

  not_settled :
      (p : RetryPolicy) (n : ℕ) (o : Outcome V)
      → settled func retryable jitter p n o ≡ false
      → (n < max p.max_attempts 1) × AsksAgain o
  unfolding settled
  not_settled p n (returns v) h = cc
  not_settled p n (raises e) h = ground arith

  -- Every attempt before the end of the rest asks, and so does this one.
  earlier :
      (n k : ℕ)
      → AsksAgain (func n)
      → ((m : ℕ) → n + 1 ≤ m → m < k → AsksAgain (func m))
      → (m : ℕ) → n ≤ m
      → m < k
      → AsksAgain (func m)
  earlier n k now later m a b = elim (ℕ_discrete n m) [
    | yes e ↦ subst (λ x. AsksAgain (func x)) e now
    | no ne ↦ later m (omega arith) b
  ]

  attempt_from-Ends :
      (p : RetryPolicy) (fuel attempt : ℕ) (slept : List ℕ)
      → attempt + fuel ≡ max p.max_attempts 1 + 1
      → attempt ≤ max p.max_attempts 1
      → Ends p attempt slept (attempt_from func retryable jitter p fuel attempt slept)
  unfolding attempt_from
  attempt_from-Ends p zero attempt slept e l = absurd (omega arith)
  attempt_from-Ends p (suc fuel) attempt slept e l =
      elim (Bool-cases (settled func retryable jitter p attempt (func attempt))) [
        | inl h ↦ record {
          done = record { outcome = func attempt; attempts = attempt; sleeps = slept };
          result = rw h;
          not_before = omega arith;
          within = l;
          earlier_ask = λ m a b. absurd (omega arith);
          last = settled-last p attempt (func attempt) l h;
          outcome_is = refl;
          sleeps_are = refl;
        }
        | inr h ↦
            let again = not_settled p attempt (func attempt) h in
            let rest =
              attempt_from-Ends p fuel (attempt + 1)
                (slept ++ sleep func retryable jitter p attempt ∷ []) (omega arith) (omega arith) in
            record {
              done = rest.done;
              result = rw h rest.result;
              not_before = omega (arith, rest.not_before);
              within = rest.within;
              earlier_ask = earlier attempt rest.done.attempts again.1 rest.earlier_ask;
              last = rest.last;
              outcome_is = rest.outcome_is;
              sleeps_are = omega (arith, rest.sleeps_are, length-append {0});
            }
      ]

  -- A call of `retry_async` always ends: after at most `max(max_attempts, 1)` attempts, with the
  -- outcome of the last one, which is the first that returned, raised what is not to be retried or
  -- used the attempts up; it slept once between two attempts.
  pub retry_async-Ends : (p : RetryPolicy) → Ends p 1 [] (retry_async func retryable jitter p)
  unfolding retry_async
  retry_async-Ends p = attempt_from-Ends p (max p.max_attempts 1) 1 [] (omega arith) (omega arith)
