-- ===== src/Entitlements.antt =====
-- nexusrag/services/entitlements.py: the features of a tenant's plan, its overrides, and the cache
-- of the process. Times are microseconds since the epoch. A dict is the list of its entries.
pub mod Effective
pub mod Cache
pub mod Rollouts
mod Examples
use nexus_rag.Prelude.{
  ℕ, ◌+◌, String, str_eq, Bool, true, false, not, ◌&&◌, ◌||◌, Option, none, some, List, [], ◌∷◌,
  ltb, leb, if◌then◌else◌,
}
use nexus_rag.Prelude.Tables.{filter}
use nexus_rag.Prelude.Sorting.{sort_by}
use nexus_rag.Authz.{Value}

pub record FeatureEntitlement : Type 0 where
  pub enabled : Bool
  pub config : Option Value

-- `entitlements.get(key)`, also for the cache.
unfoldable pub get {ℓ} : {A : Type ℓ} → String → List (String × A) → Option A
get k [] = none
get k ((i, x) ∷ xs) = if str_eq k i then some x else get k xs

-- `entitlements[key] = x`
unfoldable pub put {ℓ} : {A : Type ℓ} → String → A → List (String × A) → List (String × A)
put k x [] = (k, x) ∷ []
put k x ((i, y) ∷ ys) = let rest = put k x ys in if str_eq k i then (i, x) ∷ ys else (i, y) ∷ rest

-- `cache.pop(key, None)`
unfoldable pub pop {ℓ} : {A : Type ℓ} → String → List (String × A) → List (String × A)
pop k [] = []
pop k ((i, y) ∷ ys) = let rest = pop k ys in if str_eq k i then rest else (i, y) ∷ rest

abbrev pub disabled : FeatureEntitlement
disabled = record { enabled = false; config = none }

-- `FEATURE_KEYS`
abbrev pub feature_keys : List String
feature_keys =
    "feature.retrieval.local_pgvector" ∷ "feature.retrieval.aws_bedrock"
    ∷ "feature.retrieval.gcp_vertex" ∷ "feature.tts" ∷ "feature.ops_admin_access"
    ∷ "feature.audit_access" ∷ "feature.high_quota_tier" ∷ "feature.corpora_patch_provider_config"
    ∷ "feature.billing_webhook_test" ∷ "feature.identity.sso" ∷ "feature.identity.scim"
    ∷ "feature.identity.jit" ∷ "feature.cost_visibility" ∷ "feature.cost_controls"
    ∷ "feature.chargeback_reports" ∷ []

-- `{key: FeatureEntitlement(False, None) for key in FEATURE_KEYS}`
unfoldable pub all_disabled : List String → List (String × FeatureEntitlement)
all_disabled [] = []
all_disabled (k ∷ ks) = (k, disabled) ∷ all_disabled ks

-- `RETRIEVAL_PROVIDER_FEATURES.get(provider_name)`
unfoldable pub provider_feature : String → Option String
provider_feature s =
    if str_eq s "local_pgvector"
    then some "feature.retrieval.local_pgvector"
    else if str_eq s "aws_bedrock_kb"
    then some "feature.retrieval.aws_bedrock"
    else if str_eq s "gcp_vertex"
    then some "feature.retrieval.gcp_vertex"
    else none

pub record PlanFeature : Type 0 where
  pub plan_id : String
  pub feature_key : String
  pub enabled : Bool
  pub config_json : Option Value

pub record TenantPlanAssignment : Type 0 where
  pub tenant_id : String
  pub effective_from : ℕ
  pub plan_id : String
  pub effective_to : Option ℕ
  pub is_active : Bool

pub record TenantFeatureOverride : Type 0 where
  pub tenant_id : String
  pub feature_key : String
  pub enabled : Option Bool
  pub config_json : Option Value

pub record Rows : Type 0 where
  pub features : List PlanFeature
  pub assignments : List TenantPlanAssignment
  pub overrides : List TenantFeatureOverride

abbrev pub head {ℓ} : {A : Type ℓ} → List A → Option A
head [] = none
head (x ∷ xs) = some x

abbrev pub not_ended : ℕ → Option ℕ → Bool
not_ended now none = true
not_ended now (some t) = ltb now t

abbrev pub is_active_at : String → ℕ → TenantPlanAssignment → Bool
is_active_at tenant_id now a =
    str_eq a.tenant_id tenant_id
    && a.is_active
    && leb a.effective_from now
    && not_ended now a.effective_to

-- `get_active_plan_assignment`: the latest of the assignments in effect.
unfoldable pub get_active_plan_assignment :
    String → ℕ → List TenantPlanAssignment → Option TenantPlanAssignment
get_active_plan_assignment tenant_id now rows = head (
    sort_by (λ (a b : TenantPlanAssignment). ltb b.effective_from a.effective_from)
      (filter (is_active_at tenant_id now) rows))

-- `_resolve_plan_id`
unfoldable pub resolve_plan_id : String → ℕ → List TenantPlanAssignment → String
resolve_plan_id tenant_id now rows = elim (get_active_plan_assignment tenant_id now rows) [
  | none ↦ "free"
  | some a ↦ a.plan_id
]

abbrev pub features_of : String → List PlanFeature → List PlanFeature
features_of plan_id rows = filter (λ (f : PlanFeature). str_eq f.plan_id plan_id) rows

abbrev pub or_default : String → List PlanFeature → List PlanFeature → List PlanFeature
or_default plan_id [] rows = if str_eq plan_id "free" then [] else features_of "free" rows
or_default plan_id (f ∷ fs) rows = f ∷ fs

-- `_load_plan_features`
unfoldable pub load_plan_features : String → List PlanFeature → List PlanFeature
load_plan_features plan_id rows = or_default plan_id (features_of plan_id rows) rows

-- `_load_overrides`
unfoldable pub load_overrides : String → List TenantFeatureOverride → List TenantFeatureOverride
load_overrides tenant_id rows =
    filter (λ (o : TenantFeatureOverride). str_eq o.tenant_id tenant_id) rows

unfoldable pub apply_features :
    List PlanFeature → List (String × FeatureEntitlement) → List (String × FeatureEntitlement)
apply_features [] e = e
apply_features (f ∷ fs) e =
    apply_features fs (put f.feature_key (record { enabled = f.enabled; config = f.config_json }) e)

abbrev pub or_else {ℓ} : {A : Type ℓ} → A → Option A → A
or_else y none = y
or_else y (some x) = x

abbrev pub or_config : Option Value → Option Value → Option Value
or_config current none = current
or_config current (some c) = some c

abbrev pub override_with : TenantFeatureOverride → FeatureEntitlement → FeatureEntitlement
override_with o current = record {
  enabled = or_else current.enabled o.enabled;
  config = or_config current.config o.config_json;
}

unfoldable pub apply_overrides :
    List TenantFeatureOverride
    → List (String × FeatureEntitlement)
    → List (String × FeatureEntitlement)
apply_overrides [] e = e
apply_overrides (o ∷ os) e =
    apply_overrides os
      (put o.feature_key (override_with o (or_else disabled (get o.feature_key e))) e)

-- `_compute_entitlements`
unfoldable pub compute_entitlements : String → ℕ → Rows → List (String × FeatureEntitlement)
compute_entitlements tenant_id now rows =
    apply_overrides (load_overrides tenant_id rows.overrides) (
      apply_features
        (load_plan_features (resolve_plan_id tenant_id now rows.assignments) rows.features)
        (all_disabled feature_keys))

pub record CachedEntitlements : Type 0 where
  pub expires_at : ℕ
  pub entitlements : List (String × FeatureEntitlement)

-- `_entitlement_cache`
abbrev pub EntitlementCache : Type 0
EntitlementCache = List (String × CachedEntitlements)

abbrev pub entitlement_cache_ttl : ℕ
entitlement_cache_ttl = 30000000

abbrev pub cached_until : ℕ → List (String × FeatureEntitlement) → CachedEntitlements
cached_until t e = record { expires_at = t; entitlements = e }

-- The rows are read after a miss and the answer is stored.
unfoldable pub refresh :
    ℕ → ℕ → String → Rows → EntitlementCache → EntitlementCache × List (String × FeatureEntitlement)
refresh now later tenant_id rows cache =
    let e = compute_entitlements tenant_id later rows in
    (put tenant_id (cached_until (now + entitlement_cache_ttl) e) cache, e)

-- `get_effective_entitlements` at the time `now`; where the rows are read, they are read at
-- `later`.
unfoldable pub get_effective_entitlements :
    ℕ → ℕ → String → Rows → EntitlementCache → EntitlementCache × List (String × FeatureEntitlement)
get_effective_entitlements now later tenant_id rows cache = elim (get tenant_id cache) [
  | none ↦ refresh now later tenant_id rows cache
  | some c ↦
      if ltb now c.expires_at
      then (cache, c.entitlements)
      else refresh now later tenant_id rows cache
]

-- `invalidate_entitlements_cache`
abbrev pub invalidate_entitlements_cache : String → EntitlementCache → EntitlementCache
invalidate_entitlements_cache tenant_id cache = pop tenant_id cache

-- `require_feature`: whether it returns; otherwise it raises the error `FEATURE_NOT_ENABLED`.
unfoldable pub require_feature :
    ℕ → ℕ → String → String → Rows → EntitlementCache → EntitlementCache × Bool
require_feature now later tenant_id feature_key rows cache =
    let r = get_effective_entitlements now later tenant_id rows cache in
    (r.0, (or_else disabled (get feature_key r.1)).enabled)

-- `require_retrieval_provider`
unfoldable pub require_retrieval_provider :
    ℕ → ℕ → String → String → Rows → EntitlementCache → EntitlementCache × Bool
require_retrieval_provider now later tenant_id provider_name rows cache =
    elim (provider_feature provider_name) [
      | none ↦ (cache, true)
      | some k ↦ require_feature now later tenant_id k rows cache
    ]
