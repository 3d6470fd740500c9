-- ===== src/Entitlements/Effective.antt =====
-- What a tenant's plan and its overrides make of one feature.
use nexus_rag.Prelude.{
  ◌≡◌, refl, String, str_eq, true, Option, none, some, List, [], ◌∷◌, arith, eq_iff, if◌then◌else◌,
}
use nexus_rag.Entitlements.{
  FeatureEntitlement, PlanFeature, TenantFeatureOverride, get, put, override_with,
}

pub get-put {ℓ} :
    {A : Type ℓ} (k i : String) (x : A) (xs : List (String × A))
    → get k (put i x xs) ≡ (if str_eq k i then some x else get k xs)
unfolding get put
get-put k i x [] = refl
get-put k i x ((j, y) ∷ ys) = ground (arith, get-put k i x ys, eq_iff i j, eq_iff k i, eq_iff k j)

-- The plan's word on a feature.
abbrev pub granted : Option PlanFeature → Option FeatureEntitlement → Option FeatureEntitlement
granted none e = e
granted (some f) e = some (record { enabled = f.enabled; config = f.config_json })

pub same_key : (k i : String) → str_eq k i ≡ true → k ≡ i
same_key k i t = ground (arith, eq_iff k i)

-- The override's word on it.
abbrev pub overridden : Option TenantFeatureOverride → FeatureEntitlement → FeatureEntitlement
overridden none e = e
overridden (some o) e = override_with o e
