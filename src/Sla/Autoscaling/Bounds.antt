-- ===== src/Sla/Autoscaling/Bounds.antt =====
-- What `_recommend` may ask for: bounds, direction, and monotonicity in the load.
use nexus_rag.Prelude.{
  ℕ, ◌+◌, ◌-◌, ◌≤◌, ◌<◌, ◌≡◌, min, max, Bool, true, some, ltb, ◌&&◌, ◌||◌, if◌then◌else◌, arith,
}
use nexus_rag.Sla.Autoscaling.{
  AutoscalingProfile, AutoscalingSignal, ActionKind, hold, scale_up, scale_down, degrade, recommend,
  above, below,
}

-- The number of replicas goes the way that the action says.
abbrev pub Goes : ActionKind → ℕ → ℕ → Type 0
Goes hold from to = to ≡ from
Goes degrade from to = to ≡ from
Goes scale_up from to = from < to
Goes scale_down from to = to < from

-- From a number of replicas within the profile's bounds, every recommendation stays within them,
-- and moves in the direction of its action, whatever the signal, the steps and the cooldown are.
pub recommend_within_bounds :
    (p : AutoscalingProfile) (s : AutoscalingSignal) (pct : ℕ) (cooling : Bool)
    → p.min_replicas ≤ s.current_replicas
    → s.current_replicas ≤ p.max_replicas
    → (p.min_replicas ≤ (recommend p s pct cooling).to_replicas)
      × ((recommend p s pct cooling).to_replicas ≤ p.max_replicas)
      × Goes
          (recommend p s pct cooling).action
          s.current_replicas
          (recommend p s pct cooling).to_replicas
unfolding recommend
recommend_within_bounds p s pct cooling l u = ground arith

abbrev pub signal : ℕ → ℕ → ℕ → AutoscalingSignal
signal replicas p95 depth = record {
  current_replicas = replicas;
  p95_ms = some p95;
  queue_depth = some depth;
}

-- Where the load is above the band, and below it.
abbrev high : AutoscalingProfile → ℕ → ℕ → ℕ → Bool
high p pct v q = above p.target_p95_ms pct (some v) || above p.target_queue_depth pct (some q)

abbrev low : AutoscalingProfile → ℕ → ℕ → ℕ → Bool
low p pct v q = below p.target_p95_ms pct (some v) && below p.target_queue_depth pct (some q)

-- The replicas recommended, by the two tests.
abbrev moved : AutoscalingProfile → ℕ → Bool → Bool → Bool → ℕ
moved p n cooling h l =
    if cooling
    then n
    else if h
    then (if ltb n p.max_replicas then min p.max_replicas (n + max 1 p.step_up) else n)
    else if l && ltb p.min_replicas n
    then max p.min_replicas (n - max 1 p.step_down)
    else n

recommend-moved :
    (p : AutoscalingProfile) (pct : ℕ) (cooling : Bool) (n v q : ℕ)
    → (recommend p (signal n v q) pct cooling).to_replicas
      ≡ moved p n cooling (high p pct v q) (low p pct v q)
unfolding recommend
recommend-moved p pct cooling n v q = ground arith

moved_mono :
    (p : AutoscalingProfile) (n : ℕ) (cooling h h' l l' : Bool)
    → (h ≡ true → h' ≡ true)
    → (l' ≡ true → l ≡ true)
    → moved p n cooling h l ≤ moved p n cooling h' l'
moved_mono p n cooling h h' l l' f g = ground arith

high_mono :
    (p : AutoscalingProfile) (pct v v' q q' : ℕ)
    → v ≤ v'
    → q ≤ q'
    → high p pct v q ≡ true
    → high p pct v' q' ≡ true
high_mono p pct v v' q q' l m e = ground arith

low_anti :
    (p : AutoscalingProfile) (pct v v' q q' : ℕ)
    → v ≤ v'
    → q ≤ q'
    → low p pct v' q' ≡ true
    → low p pct v q ≡ true
low_anti p pct v v' q q' l m e = ground arith

-- With both signals known, a load that is higher in neither never gets more replicas than one that
-- is at least as high in both.
pub recommend_mono :
    (p : AutoscalingProfile) (pct : ℕ) (cooling : Bool) (n v v' q q' : ℕ)
    → v ≤ v'
    → q ≤ q'
    → (recommend p (signal n v q) pct cooling).to_replicas
      ≤ (recommend p (signal n v' q') pct cooling).to_replicas
recommend_mono p pct cooling n v v' q q' l m = ground (
  arith,
  recommend-moved p pct cooling n v q,
  recommend-moved p pct cooling n v' q',
  moved_mono p n cooling (high p pct v q) (high p pct v' q') (low p pct v q) (low p pct v' q')
      (high_mono p pct v v' q q' l m) (low_anti p pct v v' q q' l m),
)
