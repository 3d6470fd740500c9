-- ===== src/Sla/Autoscaling/Examples.antt =====
-- A profile of two to eight replicas.
use nexus_rag.Prelude.{◌≤◌, ◌<◌, ◌≡◌, refl, true, false, [], ◌∷◌, arith}
use nexus_rag.Sla.Autoscaling.{
  AutoscalingProfile, AutoscalingSignal, AutoscalingRecommendation, hold, scale_up, degrade,
  above_target, at_max_replicas, Settings, World, executor_unavailable, action_row,
  get_latest_profile_action, cooldown_active, recommend, apply_autoscaling, recommending,
  autoscaling_applied,
}
use nexus_rag.Sla.Autoscaling.Bounds.{signal, recommend_within_bounds}

abbrev profile : AutoscalingProfile
profile = record {
  min_replicas = 2;
  max_replicas = 8;
  target_p95_ms = 400;
  target_queue_depth = 10;
  cooldown_seconds = 300;
  step_up = 2;
  step_down = 1;
}

abbrev settings : Settings
settings = record {
  autoscaling_hysteresis_pct = 10;
  autoscaling_dry_run = false;
  autoscaling_executor = "noop";
}

abbrev busy : AutoscalingSignal
busy = signal 3 441 4

abbrev up : AutoscalingRecommendation
up = recommending busy false scale_up 5 above_target

abbrev start : World
start = record { actions = []; audits = [] }

abbrev scaled : World
scaled = record { actions = action_row up true 1000 ∷ []; audits = autoscaling_applied ∷ [] }

-- Just above the band it scales up, at its edge it holds.
edge : (recommend profile (signal 3 440 4) 10 false).action ≡ hold
unfolding recommend
edge = refl

full :
    recommend profile (signal 8 600 4) 10 false
    ≡ recommending (signal 8 600 4) false degrade 8 at_max_replicas
unfolding recommend
full = refl

small_step : (recommend profile (signal 2 300 4) 10 false).action ≡ hold
unfolding recommend
small_step = refl

no_executor :
    (apply_autoscaling (record settings { autoscaling_executor = "k8s" }) profile busy 1000 start).1
    ≡ executor_unavailable
unfolding apply_autoscaling cooldown_active get_latest_profile_action recommend
no_executor = refl

recommend_within_bounds_example : (2 ≤ 5) × (5 ≤ 8) × (3 < 5)
unfolding recommend
recommend_within_bounds_example =
    recommend_within_bounds profile busy 10 false (omega arith) (omega arith)
