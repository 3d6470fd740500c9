-- ===== src/Sla/Autoscaling/Cooldown.antt =====
-- What `_cooldown_active` makes of the rows that both entry points write.
use nexus_rag.Prelude.{
  ℕ, ◌+◌, ◌≤◌, ◌<◌, ◌≡◌, ◌≢◌, refl, ap, ◌∙◌, Bool, true, false, not, Option, none, some, List, [],
  ◌∷◌, All, arith,
}
use nexus_rag.Sla.Autoscaling.{
  AutoscalingProfile, AutoscalingSignal, AutoscalingRecommendation, AutoscalingAction, hold,
  Settings, World, recommendation, cooldown_error, get_latest_profile_action, cooldown_active,
  is_hold, later_of, recommended_at, action_row, recommend, evaluate_autoscaling, apply_autoscaling,
}

-- No row is newer than the time.
abbrev pub IsBy : ℕ → List AutoscalingAction → Type 0
IsBy now = All (λ a. a.created_at ≤ now)

abbrev IsByOpt : ℕ → Option AutoscalingAction → Type 0
IsByOpt now none = Unit {0}
IsByOpt now (some a) = a.created_at ≤ now

later-IsBy :
    (now : ℕ) (r : AutoscalingAction) (o : Option AutoscalingAction)
    → r.created_at ≤ now
    → IsByOpt now o
    → (later_of r o).created_at ≤ now
later-IsBy now r none l h = l
later-IsBy now r (some b) l h = ground arith

latest-IsBy :
    (now : ℕ) (rows : List AutoscalingAction)
    → IsBy now rows
    → IsByOpt now (get_latest_profile_action rows)
unfolding get_latest_profile_action
latest-IsBy now [] h = tt
latest-IsBy now (r ∷ rows) h =
    later-IsBy now r (get_latest_profile_action rows) h.0 (latest-IsBy now rows h.1)

later-new :
    (r : AutoscalingAction) (o : Option AutoscalingAction)
    → IsByOpt r.created_at o
    → later_of r o ≡ r
later-new r none h = refl
later-new r (some b) h = ground arith

-- A row that is created no earlier than the others is the latest one.
latest-new :
    (r : AutoscalingAction) (rows : List AutoscalingAction)
    → IsBy r.created_at rows
    → get_latest_profile_action (r ∷ rows) ≡ some r
unfolding get_latest_profile_action
latest-new r rows h =
    ap some (later-new r (get_latest_profile_action rows) (latest-IsBy r.created_at rows h))

recommend-cooling :
    (p : AutoscalingProfile) (s : AutoscalingSignal) (pct : ℕ) (cooling : Bool)
    → (recommend p s pct cooling).cooldown_active ≡ cooling
unfolding recommend
recommend-cooling p s pct cooling = ground arith

recommend-hold :
    (p : AutoscalingProfile) (s : AutoscalingSignal) (pct : ℕ)
    → (recommend p s pct true).action ≡ hold
unfolding recommend
recommend-hold p s pct = ground arith

-- A new row that moves something cools, and one that holds does not.
row-cools :
    (p : AutoscalingProfile) (r : AutoscalingRecommendation) (x : Bool) (now later : ℕ)
    (rows : List AutoscalingAction)
    → IsBy now rows
    → is_hold r.action ≡ false
    → later < now + p.cooldown_seconds
    → cooldown_active p (get_latest_profile_action (action_row r x now ∷ rows)) later ≡ true
unfolding cooldown_active
row-cools p r x now later rows h m l = ground (arith, latest-new (action_row r x now) rows h)

row-holds :
    (p : AutoscalingProfile) (r : AutoscalingRecommendation) (x : Bool) (now later : ℕ)
    (rows : List AutoscalingAction)
    → IsBy now rows
    → r.action ≡ hold
    → cooldown_active p (get_latest_profile_action (action_row r x now ∷ rows)) later ≡ false
unfolding cooldown_active
row-holds p r x now later rows h m = ground (arith, latest-new (action_row r x now) rows h)

apply-cooling :
    (c : Settings) (p : AutoscalingProfile) (s : AutoscalingSignal) (now : ℕ) (w : World)
    → cooldown_active p (get_latest_profile_action w.actions) now ≡ true
    → apply_autoscaling c p s now w ≡ (w, cooldown_error)
unfolding apply_autoscaling
apply-cooling c p s now w e = ground (
  arith,
  recommend-cooling p s c.autoscaling_hysteresis_pct
      (cooldown_active p (get_latest_profile_action w.actions) now),
)

-- An application that is answered has added its row.
apply-row :
    (c : Settings) (p : AutoscalingProfile) (s : AutoscalingSignal) (now : ℕ) (w : World)
    (r : AutoscalingRecommendation)
    → (apply_autoscaling c p s now w).1 ≡ recommendation r
    → (x : Bool) × ((apply_autoscaling c p s now w).0.actions ≡ action_row r x now ∷ w.actions)
unfolding apply_autoscaling
apply-row c p s now w r e = (not c.autoscaling_dry_run, ground arith)

-- An applied recommendation that moves something starts a cooldown: every later application before
-- its end is refused and leaves the state as it is.
pub apply_starts_cooldown :
    (c : Settings) (p : AutoscalingProfile) (s s' : AutoscalingSignal) (now later : ℕ) (w : World)
    (r : AutoscalingRecommendation)
    → IsBy now w.actions
    → (apply_autoscaling c p s now w).1 ≡ recommendation r
    → is_hold r.action ≡ false
    → later < now + p.cooldown_seconds
    → apply_autoscaling c p s' later (apply_autoscaling c p s now w).0
      ≡ ((apply_autoscaling c p s now w).0, cooldown_error)
apply_starts_cooldown c p s s' now later w r h e m l =
    let (x, q) = apply-row c p s now w r e in
    apply-cooling c p s' later (apply_autoscaling c p s now w).0 (
      ap (λ rows. cooldown_active p (get_latest_profile_action rows) later) q
      ∙ row-cools p r x now later w.actions h m l)

-- A dry run that recommends a move starts a cooldown all the same, though nothing was executed: the
-- application that follows is refused until the cooldown from the dry run is over.
pub dry_run_starts_cooldown :
    (c : Settings) (p : AutoscalingProfile) (s s' : AutoscalingSignal) (now later : ℕ) (w : World)
    → IsBy now w.actions
    → is_hold (evaluate_autoscaling c p s now w).1.action ≡ false
    → later < now + p.cooldown_seconds
    → apply_autoscaling c p s' later (evaluate_autoscaling c p s now w).0
      ≡ ((evaluate_autoscaling c p s now w).0, cooldown_error)
unfolding evaluate_autoscaling
dry_run_starts_cooldown c p s s' now later w h m l =
    apply-cooling c p s' later (evaluate_autoscaling c p s now w).0
      (row-cools p (recommended_at c p s now w) false now later w.actions h m l)

-- A dry run while a cooldown is on ends it: its own row, which holds, is the latest then, so no
-- application after it is refused for the cooldown.
pub dry_run_ends_cooldown :
    (c : Settings) (p : AutoscalingProfile) (s s' : AutoscalingSignal) (now later : ℕ) (w : World)
    → IsBy now w.actions
    → cooldown_active p (get_latest_profile_action w.actions) now ≡ true
    → (apply_autoscaling c p s' later (evaluate_autoscaling c p s now w).0).1 ≢ cooldown_error
unfolding apply_autoscaling evaluate_autoscaling
dry_run_ends_cooldown c p s s' now later w h a = ground (
  arith,
  recommend-hold p s c.autoscaling_hysteresis_pct,
  recommend-cooling p s' c.autoscaling_hysteresis_pct false,
  row-holds p (recommended_at c p s now w) false now later w.actions h,
)
