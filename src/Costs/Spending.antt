-- ===== src/Costs/Spending.antt =====
-- What a hard cap keeps a tenant's month below.
use nexus_rag.Prelude.{
  ℕ, ◌+◌, ◌≤◌, ◌<◌, ◌≡◌, ap, ◌∙◌, inl, inr, String, true, false, not, some, List, [], ◌∷◌, arith,
  leb, ◌==◌, if◌then◌else◌, Bool-cases, All,
}
use nexus_rag.Costs.{
  UsageCostEvent, sum_costs, TenantBudget, load_budget, effective_budget, Settings, Month,
  TenantBudgetSnapshot,
}
use nexus_rag.Costs.Guardrail.{Db, Query, is_degrade, guard, evaluate_budget_guardrail}

-- A request is evaluated; if it is allowed, it costs what was projected.
unfoldable pub spend : Settings → Query → Db → Db
spend c q d =
    let r = evaluate_budget_guardrail c q d in
    record d {
      snapshots = r.snapshots;
      costs =
          if r.decision.allowed
          then record {
            tenant_id = q.tenant_id;
            occurred_at = q.now;
            cost_usd = q.projected_cost_usd;
          }
            ∷ d.costs
          else d.costs;
    }

unfoldable pub spend_all : Settings → List Query → Db → Db
spend_all c [] d = d
spend_all c (q ∷ qs) d = spend_all c qs (spend c q d)

-- The month's costs of the tenant.
abbrev pub month_sum : String → Month → Db → ℕ
month_sum t m d = sum_costs t m.start m.end d.costs

-- A request of the tenant in the month that is not exempt from the cap.
abbrev pub IsCapped : String → Month → Query → Type 0
IsCapped t m q =
    (q.tenant_id ≡ t) × (q.enforce ≡ true) × (q.month.start ≡ m.start) × (q.month.end ≡ m.end)

same_sum :
    (t : String) (m : Month) (q : Query) (d : Db)
    → IsCapped t m q
    → sum_costs q.tenant_id q.month.start q.month.end d.costs ≡ month_sum t m d
same_sum t m q d k =
    ap (λ x. sum_costs x q.month.start q.month.end d.costs) k.0
    ∙ ap (λ x. sum_costs t x q.month.end d.costs) k.2
    ∙ ap (λ x. sum_costs t m.start x d.costs) k.3

-- With a hard cap a request is allowed exactly if it leaves the sum below the budget.
guard-allowed :
    (c : Settings) (b : TenantBudget) (q : Query) (budget sum : ℕ)
    → (rows : List TenantBudgetSnapshot) → b.enforce_hard_cap ≡ true
    → is_degrade c b ≡ false
    → q.enforce ≡ true
    → (guard c q b budget sum rows).decision.allowed ≡ not (leb budget (sum + q.projected_cost_usd))
unfolding guard
guard-allowed c b q budget sum rows e n f =
    elim (Bool-cases (leb budget (sum + q.projected_cost_usd))) [
      | inl x ↦ ground (arith, x, e, n, f)
      | inr x ↦ ground (arith, x, e, n, f)
    ]

evaluate-allowed :
    (c : Settings) (t : String) (m : Month) (b : TenantBudget) (q : Query) (d : Db)
    → c.cost_governance_enabled ≡ true
    → load_budget t d.budgets ≡ some b
    → b.enforce_hard_cap ≡ true
    → is_degrade c b ≡ false
    → IsCapped t m q
    → month_sum t m d < effective_budget b
    → (evaluate_budget_guardrail c q d).decision.allowed
      ≡ not (leb (effective_budget b) (month_sum t m d + q.projected_cost_usd))
unfolding evaluate_budget_guardrail
evaluate-allowed c t m b q d g l e n k h =
    let found : load_budget q.tenant_id d.budgets ≡ some b =
      ap (λ x. load_budget x d.budgets) k.0 ∙ l in
    let positive : (effective_budget b == 0) ≡ false = ground (arith, h) in
    rw (g, found, positive, same_sum t m q d k)
      (guard-allowed c b q (effective_budget b) (month_sum t m d) d.snapshots e n k.1)

cons-sum :
    (t : String) (m : Month) (e : UsageCostEvent) (es : List UsageCostEvent)
    → sum_costs t m.start m.end (e ∷ es) ≤ e.cost_usd + sum_costs t m.start m.end es
unfolding sum_costs
cons-sum t m e es = ground arith

step_below :
    (c : Settings) (t : String) (m : Month) (b : TenantBudget) (q : Query) (d : Db)
    → c.cost_governance_enabled ≡ true
    → load_budget t d.budgets ≡ some b
    → b.enforce_hard_cap ≡ true
    → is_degrade c b ≡ false
    → IsCapped t m q
    → month_sum t m d < effective_budget b
    → month_sum t m (spend c q d) < effective_budget b
unfolding spend
step_below c t m b q d g l e n k h =
    let a = evaluate-allowed c t m b q d g l e n k h in
    elim (Bool-cases (leb (effective_budget b) (month_sum t m d + q.projected_cost_usd))) [
      | inl x ↦ rw (spend, a, x) h
      | inr x ↦
          rw (spend, a, x)
            (ground (
              arith,
              x,
              cons-sum t m
                  (record {
                    tenant_id = q.tenant_id;
                    occurred_at = q.now;
                    cost_usd = q.projected_cost_usd;
                  })
                  d.costs,
            ))
    ]

-- With a hard cap that blocks, no sequence of requests of a month takes the tenant's costs to the
-- budget: while each allowed request costs what was projected, the month's sum stays below it, if
-- it starts below it.
pub spend_below_budget :
    (c : Settings) (t : String) (m : Month) (b : TenantBudget) (qs : List Query) (d : Db)
    → c.cost_governance_enabled ≡ true
    → load_budget t d.budgets ≡ some b
    → b.enforce_hard_cap ≡ true
    → is_degrade c b ≡ false
    → All (IsCapped t m) qs
    → month_sum t m d < effective_budget b
    → month_sum t m (spend_all c qs d) < effective_budget b
unfolding spend_all spend
spend_below_budget c t m b [] d g l e n k h = h
spend_below_budget c t m b (q ∷ qs) d g l e n k h =
    spend_below_budget c t m b qs (spend c q d) g l e n k.1 (step_below c t m b q d g l e n k.0 h)
