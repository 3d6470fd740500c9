-- ===== src/Resilience/Breaker/Window.antt =====
-- The open window: how the breaker comes to be open, and what it answers then.
use nexus_rag.Prelude.{
  ℕ, ◌+◌, ◌≤◌, ◌<◌, ◌≡◌, some, List, [], ◌∷◌, arith, All, length, ap, leb, if◌then◌else◌, ◌∙◌, ◌≢◌,
}
use nexus_rag.Resilience.Breaker.{
  closed, half_open, open_, Breaker, BreakerState, ok, unavailable, load, no_client, before_call,
  record_failure, entered,
}
use nexus_rag.Resilience.Breaker.Refine.{IsTimed}

-- Failures at the given times, one after the other.
unfoldable pub fail_all : List ℕ → Breaker → Breaker
fail_all [] b = b
fail_all (t ∷ ts) b = fail_all ts (record_failure t b)

module _ (t : ℕ) (b : Breaker) (p : 0 < t) (h : IsTimed b) where
  -- One failure of a closed breaker, below the threshold and at it.
  failure_below :
      (load b).state ≡ closed
      → (load b).failures + 1 < b.config.failure_threshold
      → load (record_failure t b) ≡ record (load b) { failures = (load b).failures + 1 }
  unfolding load record_failure
  failure_below e l = ground arith

  failure_at :
      (load b).state ≡ closed
      → b.config.failure_threshold ≤ (load b).failures + 1
      → load (record_failure t b) ≡ entered t open_
  unfolding load record_failure
  failure_at e l = ground arith

  failure_keeps : (IsTimed (record_failure t b)) × ((record_failure t b).config ≡ b.config)
  unfolding load record_failure
  failure_keeps = ground arith

-- A closed breaker opens exactly with the failure that reaches the threshold: after `ts`, one less
-- than the threshold, it is still closed and has counted them, and the failure at `t` opens it.
pub trip_at_threshold :
    (ts : List ℕ) (t : ℕ) (b : Breaker)
    → All (λ u. 0 < u) ts
    → 0 < t
    → IsTimed b
    → (load b).state ≡ closed
    → (load b).failures + length ts + 1 ≡ b.config.failure_threshold
    → ((load (fail_all ts b)).state ≡ closed)
      × ((load (fail_all ts b)).failures ≡ (load b).failures + length ts)
      × (load (record_failure t (fail_all ts b)) ≡ entered t open_)
unfolding fail_all
trip_at_threshold [] t b ps p h e l = (e, omega arith, failure_at t b p h e (omega arith))
trip_at_threshold (u ∷ ts) t b ps p h e l =
    let below = failure_below u b ps.0 h e (omega arith) in
    let keep = failure_keeps u b ps.0 h in
    let b' = record_failure u b in
    let rest =
      trip_at_threshold ts t b' ps.1 p keep.0 (ap (λ s. s.state) below ∙ e)
        (ground (arith, below, keep.1)) in
    ground (arith, below, rest)

abbrev pub first_trial : ℕ → BreakerState
first_trial now = record (entered now half_open) { half_open_trials = 1 }

-- An open breaker refuses a call while its window lasts, and its state stays; the first call after
-- it is let through as the first trial of a half-open breaker, where trials are configured.
pub window_decides :
    (now t : ℕ) (b : Breaker)
    → 0 < now
    → (load b).state ≡ open_
    → (load b).opened_at ≡ some t
    → 0 < b.config.half_open_trials
    → ((before_call now b).1
        ≡ (if leb (t + b.config.open_seconds) now then ok (first_trial now) else unavailable))
      × (load (before_call now b).0
          ≡ (if leb (t + b.config.open_seconds) now then first_trial now else load b))
unfolding load before_call
window_decides now t b p e o k = (ground arith, ground arith)

-- A breaker that shares its state in Redis and opens at the time 0 loses that time, and refuses
-- every later call, however long the window has been over.
pub opened_at_zero_sticks :
    (now : ℕ) (b : Breaker)
    → (load b).state ≡ half_open
    → b.redis ≢ no_client
    → (before_call now (record_failure 0 b)).1 ≡ unavailable
unfolding load before_call record_failure
opened_at_zero_sticks now b e r = ground arith
