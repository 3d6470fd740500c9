-- ===== src/Entitlements/Examples.antt =====
-- A tenant of the plan "pro" with a trial of audio, whose override is dropped.
use nexus_rag.Prelude.{
  String, Bool, str_eq, if◌then◌else◌, ◌≡◌, ◌<◌, ◌+◌, ◌≤◌, ℕ, refl, true, false, none, some, List,
  [], ◌∷◌, arith,
}
use nexus_rag.Prelude.Tables.{filter}
use nexus_rag.Prelude.Sorting.{insert_by, sort_by}
use nexus_rag.Entitlements.{
  PlanFeature, TenantPlanAssignment, TenantFeatureOverride, Rows, EntitlementCache, get, put, pop,
  all_disabled, apply_features, apply_overrides, load_plan_features, load_overrides,
  resolve_plan_id, get_active_plan_assignment, compute_entitlements, refresh,
  get_effective_entitlements, require_feature, require_retrieval_provider, provider_feature,
}
use nexus_rag.Prelude.Int.{pos}
use nexus_rag.Entitlements.Rollouts.{
  get_bool, get_int, set_all, set_kill_switches, set_canary_percentages, latest,
  set_kill_switches-get,
}
use nexus_rag.Entitlements.Cache.{ask, invalidate, after, answer_recent}

abbrev features : List PlanFeature
features =
    record { plan_id = "free"; feature_key = "feature.tts"; enabled = false; config_json = none }
    ∷ record {
      plan_id = "pro";
      feature_key = "feature.retrieval.aws_bedrock";
      enabled = true;
      config_json = none;
    }
    ∷ []

abbrev assignments : List TenantPlanAssignment
assignments =
    record {
      tenant_id = "t1";
      effective_from = 100;
      plan_id = "free";
      effective_to = none;
      is_active = true;
    }
    ∷ record {
      tenant_id = "t1";
      effective_from = 200;
      plan_id = "pro";
      effective_to = some 900;
      is_active = true;
    }
    ∷ []

abbrev trial : TenantFeatureOverride
trial = record {
  tenant_id = "t1";
  feature_key = "feature.tts";
  enabled = some true;
  config_json = none;
}

abbrev with_trial : Rows
with_trial = record { features = features; assignments = assignments; overrides = trial ∷ [] }

abbrev without : Rows
without = record { features = features; assignments = assignments; overrides = [] }

-- The plan allows a provider while it is in effect, and the free plan does not.
provider_in_plan : (require_retrieval_provider 300 300 "t1" "aws_bedrock_kb" with_trial []).1 ≡ true
unfolding require_retrieval_provider provider_feature require_feature get_effective_entitlements
    refresh get compute_entitlements load_overrides load_plan_features resolve_plan_id
    get_active_plan_assignment filter sort_by insert_by apply_features apply_overrides put
    all_disabled
provider_in_plan = refl

provider_after : (require_retrieval_provider 900 900 "t1" "aws_bedrock_kb" with_trial []).1 ≡ false
unfolding require_retrieval_provider provider_feature require_feature get_effective_entitlements
    refresh get compute_entitlements load_overrides load_plan_features resolve_plan_id
    get_active_plan_assignment filter sort_by insert_by apply_features apply_overrides put
    all_disabled
provider_after = refl

-- The cache outlives the plan's end, and is left once it is dropped.
abbrev filled : EntitlementCache
filled = (get_effective_entitlements 300 300 "t1" with_trial []).0

provider_cached :
    (require_retrieval_provider 900 900 "t1" "aws_bedrock_kb" with_trial filled).1 ≡ true
unfolding require_retrieval_provider provider_feature require_feature get_effective_entitlements
    refresh get compute_entitlements load_overrides load_plan_features resolve_plan_id
    get_active_plan_assignment filter sort_by insert_by apply_features apply_overrides put
    all_disabled
provider_cached = refl

provider_dropped :
    (require_retrieval_provider 900 900 "t1" "aws_bedrock_kb" with_trial (pop "t1" filled)).1
    ≡ false
unfolding require_retrieval_provider provider_feature require_feature get_effective_entitlements
    refresh get compute_entitlements load_overrides load_plan_features resolve_plan_id
    get_active_plan_assignment filter sort_by insert_by apply_features apply_overrides put pop
    all_disabled
provider_dropped = refl

answer_recent_example :
    (at : ℕ) × (30000400 < at + 30000000)
    × (at ≤ 30000401)
    × ((get_effective_entitlements 30000400 30000401 "t1" without
          (after (ask 300 301 "t1" ∷ invalidate "t2" ∷ []) without filled)).1
        ≡ compute_entitlements "t1" at without)
unfolding get_effective_entitlements refresh get put
answer_recent_example =
    answer_recent without 300 30000400 30000401 "t1" (ask 300 301 "t1" ∷ invalidate "t2" ∷ [])
      filled (omega arith, tt) (omega arith, omega arith, tt) (omega arith) (omega arith)

abbrev switches : List (String × Bool)
switches = ("kill.tts", true) ∷ ("kill.run", false) ∷ []

unset : get_bool (λ s. s) "kill.ingest" true (set_kill_switches switches (some [])).0 ≡ true
unfolding get_bool set_all get put
unset = refl

percentage :
    get_int
      (λ s. if str_eq s "25" then some (pos 25) else none)
      "rollout.tts"
      (pos 100)
      (set_canary_percentages (λ n. "25") (("rollout.tts", pos 25) ∷ []) (some [])).0
    ≡ pos 25
unfolding get_int set_all get put
percentage = refl

set_kill_switches-get_example :
    (get_bool (λ s. s) "kill.tts" false (set_kill_switches switches (some [])).0 ≡ true)
    × (get_bool (λ s. s) "kill.tts" false (set_kill_switches switches none).0 ≡ false)
unfolding get_bool latest
set_kill_switches-get_example =
    set_kill_switches-get (λ s. s) "kill.tts" false switches [] refl refl
