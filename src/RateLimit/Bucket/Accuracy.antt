-- ===== src/RateLimit/Bucket/Accuracy.antt =====
-- How far the doubles may be off, and what follows for a bucket over time.
use native.Mathlib.Nat.{mul-le-mul_right, add-sub_cancel_left}
use nexus_rag.Prelude.{ℕ, ◌+◌, ◌-◌, ◌*◌, ◌≤◌, ◌<◌, min, some, arith, leb, inl, inr, Bool-cases}
use nexus_rag.RateLimit.Bucket.{Doubles, BucketConfig, get_tokens, ttl_seconds, live}

-- Up to a full bucket the doubles are off by `slop` parts at most, and the time to live is not shorter
-- than it takes to fill the bucket, of which it is meant to be the double.
pub record IsAccurate (d : Doubles) (unit : ℕ) (c : BucketConfig) (slop : ℕ) : Type 0 where
  pub refilled_below :
      (t ms : ℕ) → min (c.burst * unit) (d.refilled t ms c.rate) ≤ t + ms * c.rate + slop
  pub refilled_above :
      (t ms : ℕ) → min (c.burst * unit) (t + ms * c.rate - slop) ≤ d.refilled t ms c.rate
  pub delay_above : (cost t : ℕ) → cost ≤ t + d.delay cost t c.rate * c.rate + slop
  pub ttl_above : c.burst * unit ≤ d.ttl (c.burst * unit) c.rate * 1000 * c.rate

module _ (d : Doubles) (unit slop : ℕ) (c : BucketConfig) (p : 0 < c.rate) where
  ttl-above : d.ttl (c.burst * unit) c.rate ≤ ttl_seconds d unit c
  unfolding ttl_seconds
  ttl-above = ground arith

  -- A bucket that Redis has dropped would be full by then.
  pub expired_full :
      (wait : ℕ)
      → IsAccurate d unit c slop
      → ttl_seconds d unit c * 1000 ≤ wait
      → c.burst * unit ≤ wait * c.rate
  expired_full wait a l = omega (
    arith,
    a.ttl_above,
    mul-le-mul_right c.rate l,
    mul-le-mul_right c.rate (mul-le-mul_right 1000 ttl-above),
  )

  -- What a wait adds to a bucket that a script has written, dropped or not.
  pub waited :
      (now wait t : ℕ)
      → IsAccurate d unit c slop
      → get_tokens d unit c (now + wait) (
          live (now + wait) (
            some (record { tokens = t; ts = now; expires_at = now + ttl_seconds d unit c * 1000 })))
        ≤ t + wait * c.rate + slop
  unfolding get_tokens
  waited now wait t a = elim (Bool-cases (leb (now + ttl_seconds d unit c * 1000) (now + wait))) [
    | inl y ↦ rw y (omega (arith, expired_full wait a (ground (arith, y))))
    | inr n ↦ rw (n, add-sub_cancel_left now wait) (a.refilled_below t wait)
  ]

  -- It brings what a cost lacks, with what the doubles may be off twice.
  pub waits-enough :
      (now wait t cost : ℕ)
      → IsAccurate d unit c slop
      → cost ≤ c.burst * unit
      → cost + slop ≤ t + wait * c.rate
      → cost
        ≤ get_tokens d unit c (now + wait) (
            live (now + wait) (
              some
                (record { tokens = t; ts = now; expires_at = now + ttl_seconds d unit c * 1000 })))
  unfolding get_tokens
  waits-enough now wait t cost a room l =
      elim (Bool-cases (leb (now + ttl_seconds d unit c * 1000) (now + wait))) [
        | inl y ↦ rw y room
        | inr n ↦ rw (n, add-sub_cancel_left now wait) (omega (arith, a.refilled_above t wait))
      ]
