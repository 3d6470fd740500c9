-- ===== src/RateLimit/Bucket/Refill.antt =====
-- The helper in Python against the script.
use nexus_rag.Prelude.{ℕ, ◌*◌, ◌≡◌, Option, none, some, arith}
use nexus_rag.RateLimit.Bucket.{Doubles, BucketConfig, Bucket, get_tokens, calculate_tokens}

abbrev pub read_tokens : Option Bucket → Option ℕ
read_tokens none = none
read_tokens (some b) = some b.tokens

abbrev pub read_ts : Option Bucket → Option ℕ
read_ts none = none
read_ts (some b) = some b.ts

-- `_calculate_tokens` gives, for every hash and every clock, also one that runs back, the tokens
-- that the script works out; where there are none to read, the double of the burst and nothing more
-- is the burst.
pub calculate_tokens-get_tokens :
    (d : Doubles) (unit : ℕ) (c : BucketConfig) (now : ℕ) (b : Option Bucket)
    → d.refilled (c.burst * unit) 0 c.rate ≡ c.burst * unit
    → calculate_tokens d unit c now (read_tokens b) (read_ts b) ≡ get_tokens d unit c now b
unfolding calculate_tokens get_tokens
calculate_tokens-get_tokens d unit c now none h = ground (arith, h)
calculate_tokens-get_tokens d unit c now (some b) h = ground arith
