-- ===== src/Operability/Notifications/Backoff.antt =====
-- `retry_backoff_ms` and `dedupe_window_start`.
use native.Mathlib.Nat.{mul-le-mul_left, one-le-pow, mod-lt}
use nexus_rag.Prelude.{ℕ, ◌+◌, ◌-◌, ◌*◌, ◌^◌, ◌%◌, ◌≤◌, min, max, String, arith}
use nexus_rag.Operability.Notifications.{Settings}

-- `dedupe_window_start`, on whole seconds
unfoldable pub dedupe_window_start : ℕ → ℕ → ℕ
dedupe_window_start now window_seconds = now - now % max 1 window_seconds

-- Where `digest` is `int(sha256(f"{job_id}:{attempt_no}").hexdigest()[:8], 16)`.
module _ (digest : String → ℕ → ℕ) where
  abbrev pub base : Settings → ℕ
  base c = max 1 c.notify_backoff_ms

  abbrev pub cap : Settings → ℕ
  cap c = max (base c) c.notify_backoff_max_ms

  -- `retry_backoff_ms`
  unfoldable pub retry_backoff_ms : Settings → String → ℕ → ℕ
  retry_backoff_ms c k attempt_no =
      let backoff = min (cap c) (base c * 2 ^ (attempt_no - 1)) in
      min (cap c) (backoff + digest k attempt_no % 251)

  -- A delay is never below the base nor above the cap, and exceeds the doubled base, where the cap
  -- lets it, by at most 250 milliseconds.
  pub retry_backoff-bounds :
      (c : Settings) (k : String) (n : ℕ)
      → (base c ≤ retry_backoff_ms c k n)
        × (retry_backoff_ms c k n ≤ cap c)
        × (min (cap c) (base c * 2 ^ (n - 1)) ≤ retry_backoff_ms c k n)
        × (retry_backoff_ms c k n ≤ base c * 2 ^ (n - 1) + 250)
  unfolding retry_backoff_ms
  retry_backoff-bounds c k n = ground (
    arith,
    mul-le-mul_left (base c) (one-le-pow (n - 1) 2 (omega arith)),
    mod-lt (digest k n) {m = 251} (omega arith),
  )
