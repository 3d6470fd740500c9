-- ===== src/RateLimit/Bucket/Budget.antt =====
-- What the buckets let through over a sequence of requests.
use mathlib.Core.Path.{subst}
use native.Mathlib.Nat.{add-mul}
use nexus_rag.Prelude.{
  ℕ, ◌+◌, ◌*◌, ◌≤◌, ◌<◌, ◌≡◌, refl, sym, length, Bool, Option, some, List, [], ◌∷◌, arith,
  if◌then◌else◌,
}
use nexus_rag.RateLimit.Bucket.{
  Doubles, BucketConfig, Bucket, Buckets, get_tokens, ttl_seconds, live, check,
}
use nexus_rag.RateLimit.Bucket.Accuracy.{IsAccurate, waited}

-- A request: its cost, and the milliseconds that have passed since the one before.
pub record Request : Type 0 where
  pub cost : ℕ
  pub wait : ℕ

module _ (d : Doubles) (unit : ℕ) (key_limit tenant_limit : BucketConfig) where
  -- The tokens charged over the requests, the first of which comes its wait after `now`.
  unfoldable pub spent : ℕ → List Request → Buckets → ℕ
  spent now [] w = 0
  spent now (r ∷ rs) w =
      let (w', a) = check d unit key_limit tenant_limit r.cost (now + r.wait) w in
      (if a.allowed then r.cost else 0) + spent (now + r.wait) rs w'

  abbrev pub elapsed : List Request → ℕ
  elapsed [] = 0
  elapsed (r ∷ rs) = r.wait + elapsed rs

  abbrev charge_of : Bool → Request → ℕ
  charge_of allowed r = if allowed then r.cost else 0

  abbrev pub written : ℕ → ℕ → Option Bucket
  written now t =
      some (record { tokens = t; ts = now; expires_at = now + ttl_seconds d unit key_limit * 1000 })

  -- The key's bucket after a request holds what it held before it, less the charge.
  check-charge :
      (now : ℕ) (r : Request) (w : Buckets)
      → (t : ℕ) × ((check d unit key_limit tenant_limit r.cost now w).0.key_bucket ≡ written now t)
        × (t + charge_of (check d unit key_limit tenant_limit r.cost now w).1.allowed r * unit
            ≡ get_tokens d unit key_limit now (live now w.key_bucket))
  unfolding check
  check-charge now r w = (_, refl, ground arith)

  get_tokens-burst :
      (now : ℕ) (b : Option Bucket) → get_tokens d unit key_limit now b ≤ key_limit.burst * unit
  unfolding get_tokens
  get_tokens-burst now b = ground arith

  module _ (slop : ℕ) (p : 0 < key_limit.rate) (a : IsAccurate d unit key_limit slop) where
    -- A wait brings at most the rate's parts, and what the doubles are off.
    refilled :
        (now : ℕ) (r : Request) (t : ℕ) (w : Buckets)
        → w.key_bucket ≡ written now t
        → get_tokens d unit key_limit (now + r.wait) (live (now + r.wait) w.key_bucket)
          ≤ t + r.wait * key_limit.rate + slop
    refilled now r t w e =
        subst
          (λ b.
            get_tokens d unit key_limit (now + r.wait) (live (now + r.wait) b)
            ≤ t + r.wait * key_limit.rate + slop)
          (sym e) (waited d unit slop key_limit p now r.wait t a)

    spent-from :
        (now : ℕ) (rs : List Request) (w : Buckets) (t : ℕ)
        → w.key_bucket ≡ written now t
        → spent now rs w * unit ≤ t + elapsed rs * key_limit.rate + length rs * slop
    unfolding spent
    spent-from now [] w t e = omega arith
    spent-from now (r ∷ rs) w t e =
        let w' = (check d unit key_limit tenant_limit r.cost (now + r.wait) w).0 in
        let (left, there, paid) = check-charge (now + r.wait) r w in
        let rest = spent-from (now + r.wait) rs w' left there in
        omega (
          arith,
          rest,
          paid,
          refilled now r t w e,
          add-mul
              (charge_of (check d unit key_limit tenant_limit r.cost (now + r.wait) w).1.allowed r)
              (spent (now + r.wait) rs w') unit,
          add-mul r.wait (elapsed rs) key_limit.rate,
        )

    -- However the requests come, and whenever Redis drops a bucket whose time to live is over, where
    -- the key's rate is not 0 and the doubles are accurate up to `slop` parts, no more tokens of the
    -- key are let through than its burst, what its rate brings in the time that passes, and `slop`
    -- parts for each request.
    pub spent-within :
        (now : ℕ) (rs : List Request) (w : Buckets)
        → spent now rs w * unit
          ≤ key_limit.burst * unit + elapsed rs * key_limit.rate + length rs * slop
    unfolding spent
    spent-within now [] w = omega arith
    spent-within now (r ∷ rs) w =
        let w' = (check d unit key_limit tenant_limit r.cost (now + r.wait) w).0 in
        let (left, there, paid) = check-charge (now + r.wait) r w in
        let rest = spent-from (now + r.wait) rs w' left there in
        omega (
          arith,
          rest,
          paid,
          get_tokens-burst (now + r.wait) (live (now + r.wait) w.key_bucket),
          add-mul
              (charge_of (check d unit key_limit tenant_limit r.cost (now + r.wait) w).1.allowed r)
              (spent (now + r.wait) rs w') unit,
          add-mul r.wait (elapsed rs) key_limit.rate,
        )
