-- ===== src/Sla/Autoscaling.antt =====
-- nexusrag/services/sla/autoscaling.py. Times count seconds, the latency whole milliseconds, and
-- the bounds around a target are compared in hundredths of it: `signal > target * (1.0 +
-- hysteresis_pct / 100.0)` is `100 * signal > target * (100 + hysteresis_pct)`. The doubles of the
-- code may round a bound, which tells only for a signal that meets it.
pub mod Bounds
pub mod Cooldown
mod Examples
use nexus_rag.Prelude.{
  ℕ, ◌+◌, ◌-◌, ◌*◌, min, max, Bool, true, false, ◌&&◌, ◌||◌, not, String, str_eq, Option, none,
  some, List, [], ◌∷◌, ltb, if◌then◌else◌,
}

pub record AutoscalingProfile : Type 0 where
  pub min_replicas : ℕ
  pub max_replicas : ℕ
  pub target_p95_ms : ℕ
  pub target_queue_depth : ℕ
  pub cooldown_seconds : ℕ
  pub step_up : ℕ
  pub step_down : ℕ

pub record AutoscalingSignal : Type 0 where
  pub current_replicas : ℕ
  pub p95_ms : Option ℕ
  pub queue_depth : Option ℕ

pub data ActionKind : Type 0 where
  hold scale_up scale_down degrade : ActionKind

pub data Reason : Type 0 where
  within_targets signal_unavailable cooling_down above_target at_max_replicas below_target : Reason

pub record AutoscalingRecommendation : Type 0 where
  pub action : ActionKind
  pub from_replicas : ℕ
  pub to_replicas : ℕ
  pub reason : Reason
  pub cooldown_active : Bool

pub record AutoscalingAction : Type 0 where
  pub recommended : AutoscalingRecommendation
  pub executed : Bool
  pub executed_at : Option ℕ
  pub created_at : ℕ

pub record Settings : Type 0 where
  pub autoscaling_hysteresis_pct : ℕ
  pub autoscaling_dry_run : Bool
  pub autoscaling_executor : String

pub data Audit : Type 0 where
  autoscaling_recommended autoscaling_applied : Audit

-- The profile's rows of the actions table, the last one inserted first, and the audit trail.
pub record World : Type 0 where
  pub actions : List AutoscalingAction
  pub audits : List Audit

pub data Result : Type 0 where
  recommendation : AutoscalingRecommendation → Result
  cooldown_error executor_unavailable : Result

-- The greater of a row's time and a newer row's decides.
abbrev pub later_of : AutoscalingAction → Option AutoscalingAction → AutoscalingAction
later_of a none = a
later_of a (some b) = if ltb a.created_at b.created_at then b else a

-- `get_latest_profile_action`; of rows created at one time, the one that was inserted last.
unfoldable pub get_latest_profile_action : List AutoscalingAction → Option AutoscalingAction
get_latest_profile_action [] = none
get_latest_profile_action (a ∷ rest) = some (later_of a (get_latest_profile_action rest))

abbrev pub is_hold : ActionKind → Bool
is_hold hold = true
is_hold _ = false

-- `last_action.executed_at or last_action.created_at`
abbrev pub reference_time : AutoscalingAction → Option ℕ → ℕ
reference_time a none = a.created_at
reference_time a (some t) = t

-- `_cooldown_active`
unfoldable pub cooldown_active : AutoscalingProfile → Option AutoscalingAction → ℕ → Bool
cooldown_active p none now = false
cooldown_active p (some a) now =
    not (is_hold a.recommended.action)
    && ltb now (reference_time a a.executed_at + p.cooldown_seconds)

-- A signal that is known, above and below the band around its target.
abbrev pub above : ℕ → ℕ → Option ℕ → Bool
above target pct none = false
above target pct (some v) = ltb (target * (100 + pct)) (v * 100)

abbrev pub below : ℕ → ℕ → Option ℕ → Bool
below target pct none = false
below target pct (some v) = ltb (v * 100) (target * (100 - pct))

abbrev pub is_missing : Option ℕ → Bool
is_missing none = true
is_missing (some v) = false

abbrev pub recommending :
    AutoscalingSignal → Bool → ActionKind → ℕ → Reason → AutoscalingRecommendation
recommending s cooling action to reason = record {
  action = action;
  from_replicas = s.current_replicas;
  to_replicas = to;
  reason = reason;
  cooldown_active = cooling;
}

-- `_recommend`
unfoldable pub recommend :
    AutoscalingProfile → AutoscalingSignal → ℕ → Bool → AutoscalingRecommendation
recommend p s pct cooling =
    let high = above p.target_p95_ms pct s.p95_ms || above p.target_queue_depth pct s.queue_depth in
    let low = below p.target_p95_ms pct s.p95_ms && below p.target_queue_depth pct s.queue_depth in
    if is_missing s.p95_ms && is_missing s.queue_depth
    then recommending s cooling hold s.current_replicas signal_unavailable
    else if cooling
    then recommending s cooling hold s.current_replicas cooling_down
    else if high
    then if ltb s.current_replicas p.max_replicas
      then recommending s cooling scale_up
          (min p.max_replicas (s.current_replicas + max 1 p.step_up)) above_target
      else recommending s cooling degrade s.current_replicas at_max_replicas
    else if low && ltb p.min_replicas s.current_replicas
    then recommending s cooling scale_down
        (max p.min_replicas (s.current_replicas - max 1 p.step_down)) below_target
    else recommending s cooling hold s.current_replicas within_targets

-- What both entry points work out first, from the latest action.
abbrev pub recommended_at :
    Settings → AutoscalingProfile → AutoscalingSignal → ℕ → World → AutoscalingRecommendation
recommended_at c p s now w =
    recommend p s c.autoscaling_hysteresis_pct
      (cooldown_active p (get_latest_profile_action w.actions) now)

abbrev pub action_row : AutoscalingRecommendation → Bool → ℕ → AutoscalingAction
action_row r executed now = record {
  recommended = r;
  executed = executed;
  executed_at = if executed then some now else none;
  created_at = now;
}

-- `evaluate_autoscaling`
unfoldable pub evaluate_autoscaling :
    Settings
    → AutoscalingProfile
    → AutoscalingSignal
    → ℕ
    → World
    → World × AutoscalingRecommendation
evaluate_autoscaling c p s now w =
    let r = recommended_at c p s now w in
    (
      record {
        actions = action_row r false now ∷ w.actions;
        audits = autoscaling_recommended ∷ w.audits;
      },
      r,
    )

-- `NoopAutoscalingExecutor.apply`, which answers true for each of the four actions.
abbrev pub noop_apply : AutoscalingRecommendation → Bool
noop_apply r = true

-- `get_executor`
abbrev pub get_executor : Settings → Option (AutoscalingRecommendation → Bool)
get_executor c = if str_eq c.autoscaling_executor "noop" then some noop_apply else none

-- `apply_autoscaling`
unfoldable pub apply_autoscaling :
    Settings → AutoscalingProfile → AutoscalingSignal → ℕ → World → World × Result
apply_autoscaling c p s now w =
    let r = recommended_at c p s now w in
    if r.cooldown_active then (w, cooldown_error) else elim (get_executor c) [
      | none ↦ (w, executor_unavailable)
      | some apply ↦
          let executed = apply r && not c.autoscaling_dry_run in
          (
            record {
              actions = action_row r executed now ∷ w.actions;
              audits = autoscaling_applied ∷ w.audits;
            },
            recommendation r,
          )
    ]
