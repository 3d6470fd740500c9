-- ===== src/Quota.antt =====
-- nexusrag/services/quota.py: `QuotaService.check_and_consume_quota` for one tenant. A period's
-- start is a number, which `_day_start` and `_month_start` work out from the time. The soft-cap
-- ratio is an exact fraction.
pub mod Limits
pub mod SoftCap
mod Examples
use nexus_rag.Prelude.{
  ℕ, ◌+◌, ◌-◌, ◌*◌, Bool, true, false, ◌&&◌, ◌||◌, Option, none, some, List, [], ◌∷◌, ltb, leb,
  ◌==◌, if◌then◌else◌,
}

pub data Period : Type 0 where
  day month : Period

-- `PlanLimit`
pub record Plan : Type 0 where
  pub daily_requests_limit : Option ℕ
  pub monthly_requests_limit : Option ℕ
  pub ratio_num : ℕ
  pub ratio_den : ℕ
  pub hard_cap_enabled : Bool

pub record UsageCounter : Type 0 where
  pub period_type : Period
  pub period_start : ℕ
  pub requests_count : ℕ

-- A row of the soft-cap events, and an audit record that announces one.
pub record SoftCapEvent : Type 0 where
  pub period_type : Period
  pub period_start : ℕ

-- The tenant's counters and soft-cap events, and the audit records of soft caps.
pub record World : Type 0 where
  pub counters : List UsageCounter
  pub soft_caps : List SoftCapEvent
  pub announced : List SoftCapEvent

-- What the code does without a row for the tenant.
abbrev pub default_plan : Plan
default_plan = record {
  daily_requests_limit = none;
  monthly_requests_limit = none;
  ratio_num = 4;
  ratio_den = 5;
  hard_cap_enabled = true;
}

abbrev pub plan_of : Option Plan → Plan
plan_of none = default_plan
plan_of (some p) = p

pub record QuotaSnapshot : Type 0 where
  pub limit : Option ℕ
  pub used : ℕ
  pub remaining : Option ℕ

pub record QuotaResult : Type 0 where
  pub allowed : Bool
  pub day : QuotaSnapshot
  pub month : QuotaSnapshot
  pub soft_cap_reached : Bool
  pub enforces : Bool
  pub blocked_period : Option Period

-- A request: the starts of its day and of its month, and its estimated cost.
pub record Request : Type 0 where
  pub day_start : ℕ
  pub month_start : ℕ
  pub estimated_cost : ℕ

abbrev pub same_period : Period → Period → Bool
same_period day day = true
same_period month month = true
same_period _ _ = false

-- The count of a period; one that has no row yet begins at 0.
unfoldable pub count_of : Period → ℕ → List UsageCounter → ℕ
count_of p t [] = 0
count_of p t (c ∷ cs) =
    let rest = count_of p t cs in
    if same_period p c.period_type && t == c.period_start then c.requests_count else rest

-- `_get_or_create_counter`, with the count then written to its row
unfoldable pub set_count : Period → ℕ → ℕ → List UsageCounter → List UsageCounter
set_count p t n [] = record { period_type = p; period_start = t; requests_count = n } ∷ []
set_count p t n (c ∷ cs) =
    let rest = set_count p t n cs in
    if same_period p c.period_type && t == c.period_start
    then record c { requests_count = n } ∷ cs
    else c ∷ rest

abbrev pub remaining_of : Option ℕ → ℕ → Option ℕ
remaining_of none used = none
remaining_of (some limit) used = some (limit - used)

-- `_snapshot`; `max(limit - used, 0)`
abbrev pub snapshot : Option ℕ → ℕ → QuotaSnapshot
snapshot limit used = record { limit = limit; used = used; remaining = remaining_of limit used }

-- `_period_soft_cap_reached`
abbrev pub period_soft_cap_reached : Plan → Option ℕ → ℕ → Bool
period_soft_cap_reached p none used = false
period_soft_cap_reached p (some limit) used =
    ltb 0 limit && leb (limit * p.ratio_num) (used * p.ratio_den)

-- `limit is not None and proposed > limit`
abbrev pub exceeds : Option ℕ → ℕ → Bool
exceeds none n = false
exceeds (some limit) n = ltb limit n

unfoldable pub is_noted : Period → ℕ → List SoftCapEvent → Bool
is_noted p t [] = false
is_noted p t (e ∷ es) = same_period p e.period_type && t == e.period_start || is_noted p t es

abbrev pub event_of : Period → ℕ → SoftCapEvent
event_of p t = record { period_type = p; period_start = t }

-- One half of `_insert_soft_cap_event`, with `_try_insert_soft_cap` and the audit record of
-- `_emit_usage_events` for a period that was inserted.
unfoldable pub note_soft_cap : Bool → Period → ℕ → World → World
note_soft_cap reached p t w =
    if reached
    then if is_noted p t w.soft_caps then w else record w {
      soft_caps = event_of p t ∷ w.soft_caps;
      announced = event_of p t ∷ w.announced;
    }
    else w

-- The counts that are written.
abbrev pub counted : Request → ℕ → ℕ → World → World
counted r d m w = record w {
  counters = set_count month r.month_start m (set_count day r.day_start d w.counters);
}

-- `check_and_consume_quota`
unfoldable pub check_and_consume_quota : Option Plan → Request → World → World × QuotaResult
unfolding note_soft_cap
check_and_consume_quota plan r w =
    let p = plan_of plan in
    let day_used = count_of day r.day_start w.counters in
    let month_used = count_of month r.month_start w.counters in
    let day_proposed = day_used + r.estimated_cost in
    let month_proposed = month_used + r.estimated_cost in
    let day_exceeded = exceeds p.daily_requests_limit day_proposed in
    let month_exceeded = exceeds p.monthly_requests_limit month_proposed in
    if p.hard_cap_enabled && (day_exceeded || month_exceeded)
    then (
      counted r day_used month_used w,
      record {
        allowed = false;
        day = snapshot p.daily_requests_limit day_used;
        month = snapshot p.monthly_requests_limit month_used;
        soft_cap_reached =
            period_soft_cap_reached p p.daily_requests_limit day_used
            || period_soft_cap_reached p p.monthly_requests_limit month_used;
        enforces = p.hard_cap_enabled;
        blocked_period = some (if month_exceeded then month else day);
      },
    )
    else (let day_soft = period_soft_cap_reached p p.daily_requests_limit day_proposed in
        let month_soft = period_soft_cap_reached p p.monthly_requests_limit month_proposed in
        (
          note_soft_cap month_soft month r.month_start
              (note_soft_cap day_soft day r.day_start (counted r day_proposed month_proposed w)),
          record {
            allowed = true;
            day = snapshot p.daily_requests_limit day_proposed;
            month = snapshot p.monthly_requests_limit month_proposed;
            soft_cap_reached = day_soft || month_soft;
            enforces = p.hard_cap_enabled;
            blocked_period = none;
          },
        ))

-- The state after requests.
unfoldable pub consume_all : Option Plan → List Request → World → World
consume_all plan [] w = w
consume_all plan (r ∷ rs) w = consume_all plan rs (check_and_consume_quota plan r w).0
