-- ===== src/Costs/Guardrail.antt =====
-- `evaluate_budget_guardrail` of nexusrag/services/costs/budget_guardrails.py.
use nexus_rag.Prelude.{
  ℕ, ◌+◌, ◌*◌, ◌-◌, String, str_eq, Bool, true, false, not, ◌&&◌, Option, none, some, List, [], ◌∷◌,
  ◌++◌, leb, ◌==◌, if◌then◌else◌,
}
use nexus_rag.Costs.{
  UsageCostEvent, sum_costs, TenantBudget, load_budget, effective_budget, DegradeActions, ok, warn,
  capped, degraded, BudgetDecision, Settings, TenantBudgetSnapshot, Month, upsert_snapshot,
}

pub record Db : Type 0 where
  pub costs : List UsageCostEvent
  pub budgets : List TenantBudget
  pub snapshots : List TenantBudgetSnapshot

pub record Query : Type 0 where
  pub tenant_id : String
  pub projected_cost_usd : ℕ
  pub estimated : Bool
  pub enforce : Bool
  pub raise_on_block : Bool
  pub now : ℕ
  pub month : Month

-- The snapshots after it, the events of the audit log, and the decision, or the error
-- `COST_BUDGET_EXCEEDED`, which the decision goes with.
pub record Evaluated : Type 0 where
  pub snapshots : List TenantBudgetSnapshot
  pub events : List String
  pub decision : BudgetDecision
  pub raises : Bool

abbrev pub unlimited : Query → Option ℕ → ℕ → List TenantBudgetSnapshot → Evaluated
unlimited q budget_usd spend_usd rows = record {
  snapshots = rows;
  events = [];
  decision = record {
    allowed = true;
    status = ok;
    budget_usd = budget_usd;
    spend_usd = spend_usd;
    remaining_usd = none;
    estimated = q.estimated;
    degrade_actions = none;
  };
  raises = false;
}

-- `budget.warn_ratio or settings.cost_default_warn_ratio`
unfoldable pub warn_ratio_of : Settings → TenantBudget → ℕ
warn_ratio_of c b = elim b.warn_ratio [
  | none ↦ c.cost_default_warn_ratio
  | some r ↦ if r == 0 then c.cost_default_warn_ratio else r
]

-- `(budget.hard_cap_mode or settings.cost_default_hard_cap_mode) == "degrade"`
unfoldable pub is_degrade : Settings → TenantBudget → Bool
is_degrade c b =
    str_eq
      (elim b.hard_cap_mode [
        | none ↦ c.cost_default_hard_cap_mode
        | some m ↦ if str_eq m "" then c.cost_default_hard_cap_mode else m
      ])
      "degrade"

abbrev pub degrade_by : Settings → DegradeActions
degrade_by c = record {
  disable_audio = c.cost_degrade_enable_tts_disable;
  top_k = some c.cost_degrade_min_top_k;
  max_output_tokens = some c.cost_degrade_max_output_tokens;
  ingest_chunk_size = none;
  ingest_chunk_overlap = none;
}

abbrev pub only_if : {A : Type 0} → Bool → A → List A
only_if true a = a ∷ []
only_if false a = []

-- The rest, once a budget that is not zero is known.
unfoldable pub guard :
    Settings → Query → TenantBudget → ℕ → ℕ → List TenantBudgetSnapshot → Evaluated
guard c q b budget_usd spend_usd rows =
    let projected = spend_usd + q.projected_cost_usd in
    let warn_triggered = leb (budget_usd * warn_ratio_of c b) (projected * 10000) in
    let cap_triggered = leb budget_usd projected in
    let caps = cap_triggered && (b.enforce_hard_cap && q.enforce) in
    let degrades = caps && is_degrade c b in
    let blocks = caps && not (is_degrade c b) in
    let status =
      if blocks
      then capped
      else if degrades
      then degraded
      else if warn_triggered
      then warn
      else ok in
    let snapshot_status = if caps then capped else if warn_triggered then warn else ok in
    record {
      snapshots =
          upsert_snapshot q.tenant_id q.month budget_usd projected snapshot_status warn_triggered
            caps q.now rows;
      events =
          only_if warn_triggered "cost.warn.triggered"
          ++ only_if caps "cost.cap.triggered"
          ++ only_if degrades "cost.degrade.applied";
      decision = record {
        allowed = not blocks;
        status = status;
        budget_usd = some budget_usd;
        spend_usd = projected;
        remaining_usd = some (budget_usd - projected);
        estimated = q.estimated;
        degrade_actions = if degrades then some (degrade_by c) else none;
      };
      raises = blocks && q.raise_on_block;
    }

unfoldable pub evaluate_budget_guardrail : Settings → Query → Db → Evaluated
evaluate_budget_guardrail c q d =
    let spend_usd = sum_costs q.tenant_id q.month.start q.month.end d.costs in
    if not c.cost_governance_enabled
    then unlimited q none 0 d.snapshots
    else elim (load_budget q.tenant_id d.budgets) [
      | none ↦ unlimited q none spend_usd d.snapshots
      | some b ↦
          if effective_budget b == 0
          then unlimited q (some (effective_budget b)) spend_usd d.snapshots
          else guard c q b (effective_budget b) spend_usd d.snapshots
    ]
