-- ===== src/Costs.antt =====
-- nexusrag/services/costs: the budget guardrail (budget_guardrails.py), the sum of a month's costs
-- (aggregation.py) and the choice of a price (pricing.py). Amounts are in one small unit of money,
-- a ratio is in ten-thousandths, as its column has it, and times are seconds.
pub mod Guardrail
pub mod Snapshots
pub mod Spending
mod Examples
use nexus_rag.Prelude.{
  ℕ, ◌+◌, ◌*◌, ◌-◌, ◌/◌, String, str_eq, Bool, true, false, not, ◌&&◌, ◌||◌, Option, none, some,
  List, [], ◌∷◌, ltb, leb, ◌==◌, if◌then◌else◌,
}

pub record UsageCostEvent : Type 0 where
  pub tenant_id : String
  pub occurred_at : ℕ
  pub cost_usd : ℕ

-- `sum_costs`
unfoldable pub sum_costs : String → ℕ → ℕ → List UsageCostEvent → ℕ
sum_costs tenant_id start end [] = 0
sum_costs tenant_id start end (e ∷ es) =
    let rest = sum_costs tenant_id start end es in
    if str_eq e.tenant_id tenant_id && leb start e.occurred_at && ltb e.occurred_at end
    then e.cost_usd + rest
    else rest

pub record TenantBudget : Type 0 where
  pub tenant_id : String
  pub monthly_budget_usd : ℕ
  pub warn_ratio : Option ℕ
  pub enforce_hard_cap : Bool
  pub hard_cap_mode : Option String
  pub current_month_override_usd : Option ℕ

-- `_load_budget`
unfoldable pub load_budget : String → List TenantBudget → Option TenantBudget
load_budget tenant_id [] = none
load_budget tenant_id (b ∷ bs) =
    if str_eq b.tenant_id tenant_id then some b else load_budget tenant_id bs

-- `_effective_budget`
unfoldable pub effective_budget : TenantBudget → ℕ
effective_budget b = elim b.current_month_override_usd [ some o ↦ o | none ↦ b.monthly_budget_usd ]

pub record DegradeActions : Type 0 where
  pub disable_audio : Bool
  pub top_k : Option ℕ
  pub max_output_tokens : Option ℕ
  pub ingest_chunk_size : Option ℕ
  pub ingest_chunk_overlap : Option ℕ

pub data BudgetStatus : Type 0 where
  ok warn capped degraded : BudgetStatus

pub record BudgetDecision : Type 0 where
  pub allowed : Bool
  pub status : BudgetStatus
  pub budget_usd : Option ℕ
  pub spend_usd : ℕ
  pub remaining_usd : Option ℕ
  pub estimated : Bool
  pub degrade_actions : Option DegradeActions

pub record Settings : Type 0 where
  pub cost_governance_enabled : Bool
  pub cost_default_warn_ratio : ℕ
  pub cost_default_hard_cap_mode : String
  pub cost_degrade_enable_tts_disable : Bool
  pub cost_degrade_min_top_k : ℕ
  pub cost_degrade_max_output_tokens : ℕ

pub record TenantBudgetSnapshot : Type 0 where
  pub tenant_id : String
  pub year_month : String
  pub budget_usd : ℕ
  pub spend_usd : ℕ
  pub forecast_usd : ℕ
  pub warn_triggered_at : Option ℕ
  pub cap_triggered_at : Option ℕ
  pub status : BudgetStatus
  pub computed_at : ℕ

-- The month of a time, as the calendar has it.
pub record Month : Type 0 where
  pub year_month : String
  pub start : ℕ
  pub end : ℕ
  pub day : ℕ
  pub days_in_month : ℕ

-- `_forecast`, to the unit below
unfoldable pub forecast : ℕ → Month → ℕ
forecast spend_usd m = spend_usd * m.days_in_month / (if leb 1 m.day then m.day else 1)

abbrev pub is_of : String → String → TenantBudgetSnapshot → Bool
is_of tenant_id year_month s = str_eq s.tenant_id tenant_id && str_eq s.year_month year_month

unfoldable pub find_snapshot :
    String → String → List TenantBudgetSnapshot → Option TenantBudgetSnapshot
find_snapshot tenant_id year_month [] = none
find_snapshot tenant_id year_month (s ∷ ss) =
    if is_of tenant_id year_month s then some s else find_snapshot tenant_id year_month ss

unfoldable pub put_snapshot :
    TenantBudgetSnapshot → List TenantBudgetSnapshot → List TenantBudgetSnapshot
put_snapshot n [] = n ∷ []
put_snapshot n (s ∷ ss) =
    let rest = put_snapshot n ss in if is_of n.tenant_id n.year_month s then n ∷ ss else s ∷ rest

abbrev pub first_time : Bool → ℕ → Option ℕ → Option ℕ
first_time triggered now (some t) = some t
first_time triggered now none = if triggered then some now else none

abbrev pub warn_time : Option TenantBudgetSnapshot → Option ℕ
warn_time none = none
warn_time (some s) = s.warn_triggered_at

abbrev pub cap_time : Option TenantBudgetSnapshot → Option ℕ
cap_time none = none
cap_time (some s) = s.cap_triggered_at

-- `_upsert_snapshot`
unfoldable pub upsert_snapshot :
    String
    → Month
    → ℕ
    → ℕ
    → BudgetStatus
    → Bool
    → Bool
    → ℕ
    → List TenantBudgetSnapshot
    → List TenantBudgetSnapshot
upsert_snapshot tenant_id m budget_usd spend_usd status warn_triggered cap_triggered now rows =
    let found = find_snapshot tenant_id m.year_month rows in
    put_snapshot
      (record {
        tenant_id = tenant_id;
        year_month = m.year_month;
        budget_usd = budget_usd;
        spend_usd = spend_usd;
        forecast_usd = forecast spend_usd m;
        warn_triggered_at = first_time warn_triggered now (warn_time found);
        cap_triggered_at = first_time cap_triggered now (cap_time found);
        status = status;
        computed_at = now;
      })
      rows

pub record PricingCatalog : Type 0 where
  pub provider : String
  pub component : String
  pub rate_type : String
  pub active : Bool
  pub effective_from : ℕ
  pub effective_to : Option ℕ
  pub rate_value_usd : ℕ
  pub version : String

abbrev pub is_rate_at : String → String → String → ℕ → PricingCatalog → Bool
is_rate_at provider component rate_type occurred_at r =
    str_eq r.provider provider
    && str_eq r.component component
    && str_eq r.rate_type rate_type
    && r.active
    && leb r.effective_from occurred_at
    && elim r.effective_to [ none ↦ true | some t ↦ leb occurred_at t ]

abbrev pub newer_rate : PricingCatalog → Option PricingCatalog → PricingCatalog
newer_rate r none = r
newer_rate r (some s) = if ltb r.effective_from s.effective_from then s else r

-- `select_pricing_rate`: the newest rate that is active at the time.
unfoldable pub select_pricing_rate :
    String → String → String → ℕ → List PricingCatalog → Option PricingCatalog
select_pricing_rate provider component rate_type occurred_at [] = none
select_pricing_rate provider component rate_type occurred_at (r ∷ rs) =
    let rest = select_pricing_rate provider component rate_type occurred_at rs in
    if is_rate_at provider component rate_type occurred_at r then some (newer_rate r rest) else rest
