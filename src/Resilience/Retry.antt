-- ===== src/Resilience/Retry.antt =====
-- `retry_async` of nexusrag/services/resilience.py. What the awaited function does at each attempt,
-- a timeout of `wait_for` included, and the jitter, in thousandths, come from outside.
pub mod Total
mod Examples
use nexus_rag.Prelude.{
  ℕ, zero, suc, ◌+◌, ◌-◌, ◌*◌, ◌^◌, max, Bool, true, false, ◌||◌, not, Option, none, some, List, [],
  ◌∷◌, ◌++◌, leb, if◌then◌else◌,
}

-- An exception: one of `TransientException`, one with an integer `status_code`, or another.
pub data Failure : Type 0 where
  transient : Failure
  with_status : ℕ → Failure
  other : Failure

-- `_default_retryable`
unfoldable pub default_retryable : Failure → Bool
default_retryable transient = true
default_retryable (with_status s) = leb 500 s
default_retryable other = false

pub record RetryPolicy : Type 0 where
  pub timeout_ms : ℕ
  pub max_attempts : ℕ
  pub backoff_ms : ℕ

pub data Outcome (V : Type 0) : Type 0 where
  returns : V → Outcome V
  raises : Failure → Outcome V

-- How a call of `retry_async` ends: its outcome, the attempts made and the sleeps, in microseconds.
pub record Done (V : Type 0) : Type 0 where
  pub outcome : Outcome V
  pub attempts : ℕ
  pub sleeps : List ℕ

module _ {V : Type 0} (func : ℕ → Outcome V) (retryable : Failure → Bool) (jitter : ℕ → ℕ) where
  -- `(backoff_ms / 1000) * 2 ** (attempt - 1) * jitter`
  unfoldable pub sleep : RetryPolicy → ℕ → ℕ
  sleep p attempt = p.backoff_ms * 2 ^ (attempt - 1) * jitter attempt

  -- The call returned, or the `except` clause raises the exception again.
  unfoldable pub settled : RetryPolicy → ℕ → Outcome V → Bool
  settled p attempt (returns v) = true
  settled p attempt (raises e) = leb (max p.max_attempts 1) attempt || not (retryable e)

  -- The `while True`, on fuel; `none` means that the fuel ran out.
  unfoldable pub attempt_from : RetryPolicy → ℕ → ℕ → List ℕ → Option (Done V)
  attempt_from p zero attempt slept = none
  attempt_from p (suc fuel) attempt slept =
      let again = attempt_from p fuel (attempt + 1) (slept ++ sleep p attempt ∷ []) in
      if settled p attempt (func attempt)
      then some (record { outcome = func attempt; attempts = attempt; sleeps = slept })
      else again

  unfoldable pub retry_async : RetryPolicy → Option (Done V)
  unfolding attempt_from
  retry_async p = attempt_from p (max p.max_attempts 1) 1 []
