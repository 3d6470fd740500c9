-- ===== src/Entitlements/Cache.antt =====
-- How old an answer of the cache can be.
use mathlib.Core.Option.{some-injective}
use nexus_rag.Prelude.{
  ℕ, ◌≡◌, ◌≤◌, ◌<◌, ◌+◌, ◌⊎◌, inl, inr, refl, String, str_eq, true, some, List, [], ◌∷◌, arith, ltb,
  Bool-cases, Option-cases, sym, ap, ◌∙◌,
}
use nexus_rag.Entitlements.Effective.{same_key}
use nexus_rag.Entitlements.{
  Rows, CachedEntitlements, EntitlementCache, cached_until, refresh, get, put, pop,
  compute_entitlements, entitlement_cache_ttl, get_effective_entitlements,
  invalidate_entitlements_cache,
}

-- What happens to the cache: a tenant's entitlements are asked for, or dropped.
pub data Event : Type 0 where
  ask : ℕ → ℕ → String → Event
  invalidate : String → Event

unfoldable pub after : List Event → Rows → EntitlementCache → EntitlementCache
after [] rows cache = cache
after (ask now later t ∷ es) rows cache =
    after es rows (get_effective_entitlements now later t rows cache).0
after (invalidate t ∷ es) rows cache = after es rows (invalidate_entitlements_cache t cache)

-- Each time an event asks at, it reads the rows then or later, and by `end`.
abbrev pub IsUntil : ℕ → List Event → Type 0
IsUntil end [] = Unit
IsUntil end (ask now later t ∷ es) = (now ≤ later) × (later ≤ end) × IsUntil end es
IsUntil end (invalidate t ∷ es) = IsUntil end es

-- An entry that was made before the rows took their present form expires by `old`; any other has
-- the entitlements of the rows at a time by `end`, from which it lives for 30 seconds at most.
abbrev pub IsFresh : Rows → ℕ → ℕ → String → CachedEntitlements → Type 0
IsFresh rows old end t c =
    (c.expires_at ≤ old)
    ⊎ ((at : ℕ) × (c.expires_at ≤ at + entitlement_cache_ttl)
        × (at ≤ end)
        × (c.entitlements ≡ compute_entitlements t at rows))

-- The entries of a cache, each with its tenant.
abbrev pub Each : (String → CachedEntitlements → Type 0) → EntitlementCache → Type 0
Each P [] = Unit
Each P ((t, c) ∷ rest) = P t c × Each P rest

module _ (P : String → CachedEntitlements → Type 0) (k : String) where
  put-Each : (x : CachedEntitlements) (c : EntitlementCache) → P k x → Each P c → Each P (put k x c)
  unfolding put
  put-Each x [] p a = (p, tt)
  put-Each x ((i, y) ∷ c) p a = elim (Bool-cases (str_eq k i)) [
    | inl t ↦ rw t (rw (sym (same_key k i t)) p, a.1)
    | inr n ↦ rw n (a.0, put-Each x c p a.1)
  ]

  pop-Each : (c : EntitlementCache) → Each P c → Each P (pop k c)
  unfolding pop
  pop-Each [] a = tt
  pop-Each ((i, y) ∷ c) a = elim (Bool-cases (str_eq k i)) [
    | inl t ↦ rw t (pop-Each c a.1)
    | inr n ↦ rw n (a.0, pop-Each c a.1)
  ]

  get-Each : (x : CachedEntitlements) (c : EntitlementCache) → get k c ≡ some x → Each P c → P k x
  unfolding get
  get-Each x [] e a = absurd (ground (arith, e))
  get-Each x ((i, y) ∷ c) e a = elim (Bool-cases (str_eq k i)) [
    | inl t ↦ rw (same_key k i t, sym (some-injective y x (rw t at e))) a.0
    | inr n ↦ get-Each x c (rw n at e) a.1
  ]

-- An answer is read afresh or from an entry that has not expired.
effective-cases :
    (now later : ℕ) (t : String) (rows : Rows) (c : EntitlementCache)
    → (get_effective_entitlements now later t rows c ≡ refresh now later t rows c)
      ⊎ ((x : CachedEntitlements) × (get t c ≡ some x)
          × (ltb now x.expires_at ≡ true)
          × (get_effective_entitlements now later t rows c ≡ (c, x.entitlements)))
unfolding get_effective_entitlements refresh
effective-cases now later t rows c = elim (Option-cases (get t c)) [
  | inl n ↦ inl (rw (get_effective_entitlements, n) refl)
  | inr x ↦ elim (Bool-cases (ltb now x.0.expires_at)) [
    | inl y ↦ inr (x.0, x.1, y, rw (get_effective_entitlements, x.1, y) refl)
    | inr y ↦ inl (rw (get_effective_entitlements, x.1, y) refl)
  ]
]

module _ (rows : Rows) (old end : ℕ) where
  ask-Each :
      (now later : ℕ) (t : String) (c : EntitlementCache)
      → now ≤ later
      → later ≤ end
      → Each (IsFresh rows old end) c
      → Each (IsFresh rows old end) (get_effective_entitlements now later t rows c).0
  unfolding refresh
  ask-Each now later t c l m a = elim (effective-cases now later t rows c) [
    | inl e ↦ rw e (
        put-Each (IsFresh rows old end) t
          (cached_until (now + entitlement_cache_ttl) (compute_entitlements t later rows)) c
          (inr (later, omega arith, m, refl)) a)
    | inr x ↦ rw x.3 a
  ]

  after-Each :
      (es : List Event) (c : EntitlementCache)
      → IsUntil end es
      → Each (IsFresh rows old end) c
      → Each (IsFresh rows old end) (after es rows c)
  unfolding after
  after-Each [] c u a = a
  after-Each (ask now later t ∷ es) c u a =
      after-Each es (get_effective_entitlements now later t rows c).0 u.2
        (ask-Each now later t c u.0 u.1 a)
  after-Each (invalidate t ∷ es) c u a =
      after-Each es (pop t c) u (pop-Each (IsFresh rows old end) t c a)

-- From a cache whose entries expire within 30 seconds of the time `since`, and while the rows stay
-- as they are, whatever was asked and dropped meanwhile: 30 seconds after `since` and later an
-- answer is the entitlements of those rows as of a time less than 30 seconds before.
pub answer_recent :
    (rows : Rows) (since now later : ℕ) (t : String) (es : List Event) (c : EntitlementCache)
    → Each (λ _ x. x.expires_at ≤ since + entitlement_cache_ttl) c
    → IsUntil later es
    → since + entitlement_cache_ttl ≤ now
    → now ≤ later
    → (at : ℕ) × (now < at + entitlement_cache_ttl)
      × (at ≤ later)
      × ((get_effective_entitlements now later t rows (after es rows c)).1
          ≡ compute_entitlements t at rows)
unfolding refresh
answer_recent rows since now later t es c a u s l =
    let old = since + entitlement_cache_ttl in
    let b = after-Each rows old later es c u (each_old rows old later c a) in
    elim (effective-cases now later t rows (after es rows c)) [
      | inl e ↦ (later, omega arith, omega arith, ap (λ r. r.1) e)
      | inr x ↦ elim (get-Each (IsFresh rows old later) t x.0 _ x.1 b) [
        | inl o ↦ absurd (ground (arith, x.2))
        | inr f ↦ (f.0, ground (arith, x.2), f.2, ap (λ r. r.1) x.3 ∙ f.3)
      ]
    ]
  where
    each_old :
        (rows : Rows) (old end : ℕ) (c : EntitlementCache)
        → Each (λ _ x. x.expires_at ≤ old) c
        → Each (IsFresh rows old end) c
    each_old rows old end [] a = tt
    each_old rows old end ((i, x) ∷ c) a = (inl a.0, each_old rows old end c a.1)
