-- ===== src/RateLimit/Bucket/Delay.antt =====
-- When a refused request may come again, and when a bucket may be forgotten.
use native.Mathlib.Nat.{mul-le-mul_right, add-mul}
use nexus_rag.Prelude.{ℕ, ◌+◌, ◌*◌, ◌≤◌, ◌<◌, ◌≡◌, refl, Bool, true, false, ◌&&◌, arith, leb}
use nexus_rag.RateLimit.Bucket.{
  Doubles, BucketConfig, Buckets, get_tokens, retry_after, live, refusal, check,
}
use nexus_rag.RateLimit.Bucket.Accuracy.{IsAccurate, waits-enough}

-- The delay of a refusal is not less than that of either bucket.
refusal-max :
    (a b : Bool) (x y : ℕ)
    → (a ≡ true → x ≡ 0)
    → (b ≡ true → y ≡ 0)
    → a && b ≡ false
    → (x ≤ (refusal a b x y).1) × (y ≤ (refusal a b x y).1)
refusal-max true true x y f g e = ground arith
refusal-max true false x y f g e = (omega (arith, f refl), omega arith)
refusal-max false true x y f g e = (omega arith, omega (arith, g refl))
refusal-max false false x y f g e = ground arith

both_pass : (a x y : ℕ) → a ≤ x → a ≤ y → (leb a x && leb a y) ≡ true
both_pass a x y l m = ground (arith, l, m)

module _ (d : Doubles) (unit slop : ℕ) where
  -- A wait of the delay and of what makes up for the doubles brings what the cost lacks.
  delay-brings :
      (c : BucketConfig) (t cost told extra : ℕ)
      → 0 < c.rate
      → IsAccurate d unit c slop
      → retry_after d unit t c cost ≤ told
      → slop + slop ≤ extra * c.rate
      → cost * unit + slop ≤ t + (told + extra) * c.rate
  unfolding retry_after
  delay-brings c t cost told extra p a l m =
      ground
        (arith, a.delay_above (cost * unit) t, mul-le-mul_right c.rate l, add-mul told extra c.rate)

  no_delay :
      (c : BucketConfig) (t cost : ℕ) → leb (cost * unit) t ≡ true → retry_after d unit t c cost ≡ 0
  unfolding retry_after
  no_delay c t cost e = ground arith

  -- Where neither rate is 0 and the doubles are accurate up to `slop` parts, a request that is
  -- refused, and whose cost neither burst is below, is let through if it comes again after the delay
  -- that it was told and as much time more as both rates need to make up for twice the `slop`, and
  -- nothing was asked of its buckets in between.
  pub delay-enough :
      (key_limit tenant_limit : BucketConfig) (cost now extra : ℕ) (w : Buckets)
      → 0 < key_limit.rate
      → 0 < tenant_limit.rate
      → IsAccurate d unit key_limit slop
      → IsAccurate d unit tenant_limit slop
      → slop + slop ≤ extra * key_limit.rate
      → slop + slop ≤ extra * tenant_limit.rate
      → cost * unit ≤ key_limit.burst * unit
      → cost * unit ≤ tenant_limit.burst * unit
      → (check d unit key_limit tenant_limit cost now w).1.allowed ≡ false
      → (check d unit key_limit tenant_limit cost
          (now + ((check d unit key_limit tenant_limit cost now w).1.retry_after_ms + extra))
          (check d unit key_limit tenant_limit cost now w).0).1.allowed
        ≡ true
  unfolding check
  delay-enough kc tc cost now extra w p q a b m n room room' refused =
      let kt = get_tokens d unit kc now (live now w.key_bucket) in
      let tt' = get_tokens d unit tc now (live now w.tenant_bucket) in
      let told =
        refusal-max (leb (cost * unit) kt) (leb (cost * unit) tt') (retry_after d unit kt kc cost)
          (retry_after d unit tt' tc cost) (no_delay kc kt cost) (no_delay tc tt' cost) refused in
      rw refused (
        both_pass (cost * unit) _ _
          (waits-enough d unit slop kc p now _ kt (cost * unit) a room
            (delay-brings kc kt cost _ extra p a told.0 m))
          (waits-enough d unit slop tc q now _ tt' (cost * unit) b room'
            (delay-brings tc tt' cost _ extra q b told.1 n)))
