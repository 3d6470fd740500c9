-- ===== src/RateLimit/Bucket.antt =====
-- The token buckets of nexusrag/apps/api/rate_limit.py: the script that Redis runs, and `check`.
-- Tokens are counted in parts: `unit` parts make a token, fine enough for each double that counts
-- tokens to be a whole number of parts, and for the rate to be one in a millisecond. What the rounded
-- arithmetic of the doubles gives is an argument; a difference of a bucket's tokens and a whole cost
-- below them is exact.
pub mod Accuracy
pub mod Refill
pub mod Budget
pub mod Delay
mod Examples
use nexus_rag.Prelude.{
  ℕ, ◌+◌, ◌-◌, ◌*◌, ◌/◌, min, max, Bool, true, false, ◌&&◌, Option, none, some, ltb, leb,
  if◌then◌else◌,
}

-- `BucketConfig`: the parts that come in each millisecond, and the greatest number of tokens.
pub record BucketConfig : Type 0 where
  pub rate : ℕ
  pub burst : ℕ

-- The doubles of Lua and of Python.
pub record Doubles : Type 0 where
  -- `tokens + ((now_ms - ts) / 1000.0) * rate` of the tokens, the milliseconds and the rate
  pub refilled : ℕ → ℕ → ℕ → ℕ
  -- `math.ceil(((cost - tokens) / rate) * 1000)`
  pub delay : ℕ → ℕ → ℕ → ℕ
  -- `int(math.ceil((burst / rate) * 2))`
  pub ttl : ℕ → ℕ → ℕ

-- The hash of a bucket, and the time at which Redis drops it, by the clock that the caller has too.
pub record Bucket : Type 0 where
  pub tokens : ℕ
  pub ts : ℕ
  pub expires_at : ℕ

pub data Scope : Type 0 where
  api_key tenant : Scope

pub record RateLimitDecision : Type 0 where
  pub allowed : Bool
  pub scope : Option Scope
  pub retry_after_ms : ℕ
  pub key_remaining : ℕ
  pub tenant_remaining : ℕ

-- The two buckets of a request; a missing one has no hash.
pub record Buckets : Type 0 where
  pub key_bucket : Option Bucket
  pub tenant_bucket : Option Bucket

-- A value, or another where it is missing.
abbrev pub or_default : ℕ → Option ℕ → ℕ
or_default d none = d
or_default d (some n) = n

-- `scope` and the delay of a refusal.
abbrev pub refusal : Bool → Bool → ℕ → ℕ → Scope × ℕ
refusal true false key_retry tenant_retry = (tenant, tenant_retry)
refusal false false key_retry tenant_retry =
    if ltb key_retry tenant_retry then (tenant, tenant_retry) else (api_key, key_retry)
refusal _ _ key_retry tenant_retry = (api_key, key_retry)

-- The hash that a script finds.
abbrev pub live : ℕ → Option Bucket → Option Bucket
live now none = none
live now (some b) = if leb b.expires_at now then none else some b

module _ (d : Doubles) (unit : ℕ) where
  -- `get_tokens`; a missing bucket is full, and nothing is added to it; a clock that runs back refills nothing, as `now - ts` stops at 0.
  unfoldable pub get_tokens : BucketConfig → ℕ → Option Bucket → ℕ
  get_tokens c now none = c.burst * unit
  get_tokens c now (some b) = min (c.burst * unit) (d.refilled b.tokens (now - b.ts) c.rate)

  -- `_calculate_tokens`, with the two values that a bucket is read as.
  unfoldable pub calculate_tokens : BucketConfig → ℕ → Option ℕ → Option ℕ → ℕ
  calculate_tokens c now tokens last_ms =
      let last = or_default now last_ms in
      let start = if ltb now last then now else last in
      min (c.burst * unit) (d.refilled (or_default (c.burst * unit) tokens) (now - start) c.rate)

  -- `retry_after_ms`
  unfoldable pub retry_after : ℕ → BucketConfig → ℕ → ℕ
  retry_after tokens c cost =
      if leb (cost * unit) tokens
      then 0
      else if leb c.rate 0
      then 1000
      else d.delay (cost * unit) tokens c.rate

  -- `_ttl_seconds`
  unfoldable pub ttl_seconds : BucketConfig → ℕ
  ttl_seconds c = if leb c.rate 0 then max 1 c.burst else max 1 (d.ttl (c.burst * unit) c.rate)

  -- The tokens of a bucket after the script.
  abbrev pub charged : Bool → ℕ → ℕ → ℕ
  charged allowed tokens cost = if allowed then tokens - cost * unit else tokens

  -- `HMSET` and `EXPIRE`
  abbrev pub bucket_at : BucketConfig → ℕ → ℕ → Option Bucket
  bucket_at c now tokens =
      some (record { tokens = tokens; ts = now; expires_at = now + ttl_seconds c * 1000 })

  -- `RateLimiter.check`, with the script. Redis cuts a number that a script returns to its whole
  -- part.
  unfoldable pub check : BucketConfig → BucketConfig → ℕ → ℕ → Buckets → Buckets × RateLimitDecision
  unfolding get_tokens retry_after ttl_seconds
  check key_limit tenant_limit cost now w =
      let key_tokens = get_tokens key_limit now (live now w.key_bucket) in
      let tenant_tokens = get_tokens tenant_limit now (live now w.tenant_bucket) in
      let key_allowed = leb (cost * unit) key_tokens in
      let tenant_allowed = leb (cost * unit) tenant_tokens in
      let allowed = key_allowed && tenant_allowed in
      let key_left = charged allowed key_tokens cost in
      let tenant_left = charged allowed tenant_tokens cost in
      let (scope, retry) =
        refusal key_allowed tenant_allowed (retry_after key_tokens key_limit cost)
          (retry_after tenant_tokens tenant_limit cost) in
      (
        record {
          key_bucket = bucket_at key_limit now key_left;
          tenant_bucket = bucket_at tenant_limit now tenant_left;
        },
        record {
          allowed = allowed;
          scope = if allowed then none else some scope;
          retry_after_ms = if allowed then 0 else retry;
          key_remaining = key_left / unit;
          tenant_remaining = tenant_left / unit;
        },
      )
