-- ===== src/Resilience/Retry/Examples.antt =====
-- A call that times out twice and then returns.
use nexus_rag.Prelude.{ℕ, zero, suc, ◌≡◌, refl, some, [], ◌∷◌}
use nexus_rag.Resilience.Retry.{
  RetryPolicy, Outcome, returns, raises, transient, default_retryable, settled, sleep, retry_async,
}
use nexus_rag.Resilience.Retry.Total.{Ends, retry_async-Ends}

abbrev flaky : ℕ → Outcome ℕ
flaky zero = raises transient
flaky (suc zero) = raises transient
flaky (suc (suc zero)) = raises transient
flaky (suc (suc (suc n))) = returns 7

abbrev jitter : ℕ → ℕ
jitter n = 1000

abbrev policy : RetryPolicy
policy = record { timeout_ms = 100; max_attempts = 5; backoff_ms = 20 }

retries_run :
    retry_async flaky default_retryable jitter policy
    ≡ some (record { outcome = returns 7; attempts = 3; sleeps = 20000 ∷ 40000 ∷ [] })
unfolding retry_async default_retryable settled sleep
retries_run = refl

retry_async-Ends_example :
    Ends flaky default_retryable jitter policy 1 []
      (retry_async flaky default_retryable jitter policy)
retry_async-Ends_example = retry_async-Ends flaky default_retryable jitter policy
