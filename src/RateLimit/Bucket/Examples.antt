-- ===== src/RateLimit/Bucket/Examples.antt =====
-- Buckets of two and five tokens, with a thousand parts to a token.
use nexus_rag.Prelude.{
  false, ◌+◌, ◌-◌, ◌/◌, ◌*◌, ◌≤◌, ◌≡◌, refl, true, none, some, List, [], ◌∷◌, arith,
}
use nexus_rag.RateLimit.Bucket.{
  Doubles, ttl_seconds, BucketConfig, Bucket, Buckets, get_tokens, retry_after, check, api_key,
}
use nexus_rag.RateLimit.Bucket.Accuracy.{IsAccurate}
use nexus_rag.RateLimit.Bucket.Budget.{Request, spent, spent-within}
use nexus_rag.RateLimit.Bucket.Delay.{delay-enough}

-- One token in a second, and two in a second.
abbrev key_limit : BucketConfig
key_limit = record { rate = 1; burst = 2 }

abbrev tenant_limit : BucketConfig
tenant_limit = record { rate = 2; burst = 5 }

-- Doubles that lose a part of what they add, and delays that are a little short.
abbrev rounded : Doubles
rounded = record {
  refilled = λ tokens ms rate. tokens + ms * rate - 1;
  delay = λ cost tokens rate. (cost - tokens) / rate;
  ttl = λ burst rate. burst * 2 / rate / 1000 + 1;
}

abbrev half_full : Bucket
half_full = record { tokens = 500; ts = 1000; expires_at = 5000 }

abbrev drained : Buckets
drained = record { key_bucket = some half_full; tenant_bucket = none }

abbrev requests : List Request
requests =
    record { cost = 1; wait = 0 }
    ∷ record { cost = 1; wait = 100 }
    ∷ record { cost = 1; wait = 100 }
    ∷ record { cost = 1; wait = 900 }
    ∷ []

abbrev unseen : Buckets
unseen = record { key_bucket = none; tenant_bucket = none }

key-IsAccurate : IsAccurate rounded 1000 key_limit 1
key-IsAccurate = record {
  refilled_below = λ t ms. omega arith;
  refilled_above = λ t ms. omega arith;
  delay_above = λ cost t. omega arith;
  ttl_above = omega arith;
}

tenant-IsAccurate : IsAccurate rounded 1000 tenant_limit 1
tenant-IsAccurate = record {
  refilled_below = λ t ms. omega arith;
  refilled_above = λ t ms. omega arith;
  delay_above = λ cost t. omega arith;
  ttl_above = omega arith;
}

-- The third request of the four is refused.
three_pass : spent rounded 1000 key_limit tenant_limit 0 requests unseen ≡ 3
unfolding spent check get_tokens retry_after ttl_seconds
three_pass = refl

key_refuses : (check rounded 1000 key_limit tenant_limit 1 1000 drained).1.scope ≡ some api_key
unfolding check get_tokens retry_after ttl_seconds
key_refuses = refl

-- A bucket that nothing refills is full again once Redis has dropped it.
abbrev no_rate : BucketConfig
no_rate = record { rate = 0; burst = 2 }

dropped :
    spent rounded 1000 no_rate tenant_limit 0
      (record { cost = 2; wait = 0 } ∷ record { cost = 2; wait = 2000 } ∷ [])
      unseen
    ≡ 4
unfolding spent check get_tokens retry_after ttl_seconds
dropped = refl

spent-within_example :
    spent rounded 1000 key_limit tenant_limit 0 requests unseen * 1000 ≤ 2000 + 1100 * 1 + 4 * 1
spent-within_example =
    spent-within rounded 1000 key_limit tenant_limit 1 (omega arith) key-IsAccurate 0 requests
      unseen

-- The delay that was told is 501 milliseconds; with the doubles a part short, one more is needed.
told_short :
    (check rounded 1000 key_limit tenant_limit 1 1501
      (check rounded 1000 key_limit tenant_limit 1 1000 drained).0).1.allowed
    ≡ false
unfolding check get_tokens retry_after ttl_seconds
told_short = refl

delay-enough_example :
    (check rounded 1000 key_limit tenant_limit 1 1503
      (check rounded 1000 key_limit tenant_limit 1 1000 drained).0).1.allowed
    ≡ true
unfolding check get_tokens retry_after ttl_seconds
delay-enough_example =
    delay-enough rounded 1000 1 key_limit tenant_limit 1 1000 2 drained (omega arith) (omega arith)
      key-IsAccurate tenant-IsAccurate (omega arith) (omega arith) (omega arith) (omega arith) refl
