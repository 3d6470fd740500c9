-- ===== src/Costs/Examples.antt =====
-- A tenant with a hard cap.
use nexus_rag.Prelude.{ℕ, ◌<◌, ◌≡◌, refl, true, none, some, [], ◌∷◌, arith}
use nexus_rag.Costs.{
  sum_costs, TenantBudget, load_budget, effective_budget, warn, Settings, Month, find_snapshot,
  put_snapshot, warn_time, upsert_snapshot,
}
use nexus_rag.Costs.Guardrail.{
  Db, Query, warn_ratio_of, is_degrade, guard, evaluate_budget_guardrail,
}
use nexus_rag.Costs.Snapshots.{Stays, evaluate_all, trigger_times_stay}
use nexus_rag.Costs.Spending.{month_sum, spend_all, spend_below_budget}

abbrev settings : Settings
settings = record {
  cost_governance_enabled = true;
  cost_default_warn_ratio = 8000;
  cost_default_hard_cap_mode = "block";
  cost_degrade_enable_tts_disable = true;
  cost_degrade_min_top_k = 3;
  cost_degrade_max_output_tokens = 512;
}

abbrev month : Month
month = record { year_month = "2026-01"; start = 0; end = 2678400; day = 10; days_in_month = 31 }

abbrev budget : TenantBudget
budget = record {
  tenant_id = "t1";
  monthly_budget_usd = 100;
  warn_ratio = none;
  enforce_hard_cap = true;
  hard_cap_mode = none;
  current_month_override_usd = none;
}

abbrev query : ℕ → Query
query cost = record {
  tenant_id = "t1";
  projected_cost_usd = cost;
  estimated = true;
  enforce = true;
  raise_on_block = true;
  now = 800000;
  month = month;
}

abbrev db : Db
db = record {
  costs = record { tenant_id = "t1"; occurred_at = 5; cost_usd = 70 } ∷ [];
  budgets = budget ∷ [];
  snapshots = [];
}

warned : (evaluate_budget_guardrail settings (query 10) db).decision.status ≡ warn
unfolding evaluate_budget_guardrail guard load_budget effective_budget sum_costs warn_ratio_of
    is_degrade
warned = refl

refused : (evaluate_budget_guardrail settings (query 30) db).raises ≡ true
unfolding evaluate_budget_guardrail guard load_budget effective_budget sum_costs warn_ratio_of
    is_degrade
refused = refl

first_warning :
    warn_time
      (find_snapshot "t1" "2026-01" (evaluate_budget_guardrail settings (query 10) db).snapshots)
    ≡ some 800000
unfolding evaluate_budget_guardrail guard load_budget effective_budget sum_costs warn_ratio_of
    is_degrade upsert_snapshot put_snapshot find_snapshot
first_warning = refl

trigger_times_stay_example :
    Stays "t1" "2026-01" (evaluate_budget_guardrail settings (query 10) db).snapshots (
      evaluate_all settings
        ((query 50, db.costs, db.budgets) ∷ [])
        (evaluate_budget_guardrail settings (query 10) db).snapshots)
trigger_times_stay_example =
    trigger_times_stay "t1" "2026-01" settings ((query 50, db.costs, db.budgets) ∷ [])
      (evaluate_budget_guardrail settings (query 10) db).snapshots

spend_below_budget_example :
    month_sum "t1" month (spend_all settings (query 20 ∷ query 20 ∷ query 5 ∷ []) db) < 100
unfolding load_budget effective_budget is_degrade sum_costs
spend_below_budget_example =
    spend_below_budget settings "t1" month budget (query 20 ∷ query 20 ∷ query 5 ∷ []) db refl refl
      refl refl
      ((refl, refl, refl, refl), ((refl, refl, refl, refl), ((refl, refl, refl, refl), tt)))
      (omega arith)
