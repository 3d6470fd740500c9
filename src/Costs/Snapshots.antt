-- ===== src/Costs/Snapshots.antt =====
-- The times in the snapshots of a month, over any sequence of evaluations.
use nexus_rag.Prelude.{
  ℕ, ◌≡◌, refl, ap, ◌∙◌, inl, inr, String, str_eq, eq_iff, Bool, true, false, ◌&&◌, Option, none,
  some, List, [], ◌∷◌, arith, ◌==◌, Bool-cases, Option-cases,
}
use nexus_rag.Costs.{
  UsageCostEvent, TenantBudget, load_budget, effective_budget, BudgetStatus, Settings,
  TenantBudgetSnapshot, Month, forecast, is_of, find_snapshot, put_snapshot, first_time, warn_time,
  cap_time, upsert_snapshot,
}
use nexus_rag.Costs.Guardrail.{Db, Query, guard, evaluate_budget_guardrail}

find-put :
    (t m : String) (n : TenantBudgetSnapshot) (rows : List TenantBudgetSnapshot)
    → is_of t m n ≡ true
    → find_snapshot t m (put_snapshot n rows) ≡ some n
unfolding find_snapshot put_snapshot
find-put t m n [] h = ground (arith, h)
find-put t m n (s ∷ ss) h =
    ground (arith, h, eq_iff n.tenant_id t, eq_iff n.year_month m, find-put t m n ss h)

find-put_other :
    (t m : String) (n : TenantBudgetSnapshot) (rows : List TenantBudgetSnapshot)
    → is_of t m n ≡ false
    → find_snapshot t m (put_snapshot n rows) ≡ find_snapshot t m rows
unfolding find_snapshot put_snapshot
find-put_other t m n [] h = ground (arith, h)
find-put_other t m n (s ∷ ss) h = ground (
  arith,
  h,
  eq_iff s.tenant_id n.tenant_id,
  eq_iff s.year_month n.year_month,
  eq_iff s.tenant_id t,
  eq_iff s.year_month m,
  eq_iff n.tenant_id t,
  eq_iff n.year_month m,
  find-put_other t m n ss h,
)

abbrev pub keeps : Option ℕ → Option ℕ → Bool
keeps none o = true
keeps (some t) none = false
keeps (some t) (some u) = t == u

-- Nothing that is set moves.
abbrev pub Stays : String → String → List TenantBudgetSnapshot → List TenantBudgetSnapshot → Type 0
Stays t m rows rows' =
    (keeps (warn_time (find_snapshot t m rows)) (warn_time (find_snapshot t m rows')) ≡ true)
    × (keeps (cap_time (find_snapshot t m rows)) (cap_time (find_snapshot t m rows')) ≡ true)

keeps_refl : (o : Option ℕ) → keeps o o ≡ true
keeps_refl none = refl
keeps_refl (some t) = ground arith

keeps_trans : (a b c : Option ℕ) → keeps a b ≡ true → keeps b c ≡ true → keeps a c ≡ true
keeps_trans none b c p q = refl
keeps_trans (some a) none c p q = absurd (ground arith)
keeps_trans (some a) (some b) none p q = absurd (ground arith)
keeps_trans (some a) (some b) (some c) p q = ground arith

keeps-first_time : (x : Bool) (now : ℕ) (o : Option ℕ) → keeps o (first_time x now o) ≡ true
keeps-first_time x now none = refl
keeps-first_time x now (some t) = ground arith

-- The row that is written.
abbrev written :
    String
    → Month
    → ℕ
    → ℕ
    → BudgetStatus
    → Bool
    → Bool
    → ℕ
    → List TenantBudgetSnapshot
    → TenantBudgetSnapshot
written tenant_id m budget_usd spend_usd status w c now rows = record {
  tenant_id = tenant_id;
  year_month = m.year_month;
  budget_usd = budget_usd;
  spend_usd = spend_usd;
  forecast_usd = forecast spend_usd m;
  warn_triggered_at = first_time w now (warn_time (find_snapshot tenant_id m.year_month rows));
  cap_triggered_at = first_time c now (cap_time (find_snapshot tenant_id m.year_month rows));
  status = status;
  computed_at = now;
}

upsert-Stays :
    (t m tenant_id : String) (month : Month) (budget spend : ℕ) (status : BudgetStatus) (w c : Bool)
    → (now : ℕ) (rows : List TenantBudgetSnapshot)
    → Stays t m rows (upsert_snapshot tenant_id month budget spend status w c now rows)
unfolding upsert_snapshot
upsert-Stays t m tenant_id month budget spend status w c now rows =
    elim (Bool-cases (str_eq tenant_id t && str_eq month.year_month m)) [
      | inr n ↦
          let other =
            find-put_other t m (written tenant_id month budget spend status w c now rows) rows n in
          (
            rw other (keeps_refl (warn_time (find_snapshot t m rows))),
            rw other (keeps_refl (cap_time (find_snapshot t m rows))),
          )
      | inl h ↦
          let same =
            find-put t m (written tenant_id month budget spend status w c now rows) rows h in
          let et : tenant_id ≡ t = ground (arith, h, eq_iff tenant_id t) in
          let em : month.year_month ≡ m = ground (arith, h, eq_iff month.year_month m) in
          let found : find_snapshot tenant_id month.year_month rows ≡ find_snapshot t m rows =
            ap (λ x. find_snapshot x month.year_month rows) et
            ∙ ap (λ x. find_snapshot t x rows) em in
          (
            rw (same, found) (keeps-first_time w now (warn_time (find_snapshot t m rows))),
            rw (same, found) (keeps-first_time c now (cap_time (find_snapshot t m rows))),
          )
    ]

Stays-refl : (t m : String) (rows : List TenantBudgetSnapshot) → Stays t m rows rows
Stays-refl t m rows = (
  keeps_refl (warn_time (find_snapshot t m rows)),
  keeps_refl (cap_time (find_snapshot t m rows)),
)

Stays-trans :
    (t m : String) (xs ys zs : List TenantBudgetSnapshot)
    → Stays t m xs ys
    → Stays t m ys zs
    → Stays t m xs zs
Stays-trans t m xs ys zs a b = (
  keeps_trans (warn_time (find_snapshot t m xs)) (warn_time (find_snapshot t m ys))
      (warn_time (find_snapshot t m zs)) a.0 b.0,
  keeps_trans (cap_time (find_snapshot t m xs)) (cap_time (find_snapshot t m ys))
      (cap_time (find_snapshot t m zs)) a.1 b.1,
)

evaluate-Stays :
    (t m : String) (c : Settings) (q : Query) (d : Db)
    → Stays t m d.snapshots (evaluate_budget_guardrail c q d).snapshots
unfolding evaluate_budget_guardrail guard
evaluate-Stays t m c q d = elim (Bool-cases c.cost_governance_enabled) [
  | inr n ↦ rw n (Stays-refl t m d.snapshots)
  | inl y ↦ elim (Option-cases (load_budget q.tenant_id d.budgets)) [
    | inl n ↦ rw (y, n) (Stays-refl t m d.snapshots)
    | inr b ↦ elim (Bool-cases (effective_budget b.0 == 0)) [
      | inl z ↦ rw (y, b.1, z) (Stays-refl t m d.snapshots)
      | inr z ↦ rw (y, b.1, z) (upsert-Stays t m q.tenant_id q.month _ _ _ _ _ q.now d.snapshots)
    ]
  ]
]

-- The snapshots after a sequence of evaluations. Between two of them costs and budgets may change.
unfoldable pub evaluate_all :
    Settings
    → List (Query × List UsageCostEvent × List TenantBudget)
    → List TenantBudgetSnapshot
    → List TenantBudgetSnapshot
evaluate_all c [] rows = rows
evaluate_all c ((q, costs, budgets) ∷ qs) rows =
    evaluate_all c qs
      (evaluate_budget_guardrail c q
        (record { costs = costs; budgets = budgets; snapshots = rows })).snapshots

-- Over any sequence of evaluations, of any tenants and months and with any costs and budgets, the
-- times at which a month's warning and its cap were first reached stay as they are once they are
-- set.
pub trigger_times_stay :
    (t m : String) (c : Settings) (qs : List (Query × List UsageCostEvent × List TenantBudget))
    → (rows : List TenantBudgetSnapshot) → Stays t m rows (evaluate_all c qs rows)
unfolding evaluate_all
trigger_times_stay t m c [] rows = Stays-refl t m rows
trigger_times_stay t m c ((q, costs, budgets) ∷ qs) rows =
    let next : Db = record { costs = costs; budgets = budgets; snapshots = rows } in
    let a = evaluate-Stays t m c q next in
    let b = trigger_times_stay t m c qs (evaluate_budget_guardrail c q next).snapshots in
    Stays-trans t m rows (evaluate_budget_guardrail c q next).snapshots
      (evaluate_all c qs (evaluate_budget_guardrail c q next).snapshots) a b
