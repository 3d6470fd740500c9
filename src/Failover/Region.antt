-- ===== src/Failover/Region.antt =====
-- `_get_or_create_cluster_state`, `_upsert_local_region_status` and `evaluate_readiness`. What the
-- peers answer (`_fetch_peer_signals`) and whether the database answers (`_check_db_writable`) come
-- from outside.
use nexus_rag.Prelude.{
  ℕ, ◌-◌, min, String, str_eq, Bool, true, false, ◌&&◌, ◌||◌, not, Option, none, some, List, [],
  ◌∷◌, ◌++◌, ltb, if◌then◌else◌,
}
use nexus_rag.Failover.{
  State, Settings, Cluster, RegionStatus, Health, Blocker, World, healthy, degraded, down,
  replication_lag_unknown, replication_lag_too_high, db_not_writable, split_brain,
  local_region_unhealthy,
}

-- The row that `_get_or_create_cluster_state` adds where there is none.
abbrev pub first_cluster : Settings → ℕ → Cluster
first_cluster c now = record {
  active_primary_region = c.region_id;
  epoch = 1;
  last_transition_at = some now;
  cooldown_until = none;
  freeze_writes = false;
  state = State.idle;
  previous_primary = none;
  write_freeze_reason = none;
}

abbrev pub cluster_or : Settings → ℕ → Option Cluster → Cluster
cluster_or c now none = first_cluster c now
cluster_or c now (some s) = s

-- `_get_or_create_cluster_state`
unfoldable pub cluster_of : Settings → ℕ → World → Cluster
cluster_of c now w = cluster_or c now w.cluster

abbrev pub is_primary : Settings → Bool
is_primary c = str_eq c.region_role "primary"

abbrev pub region_or : Settings → Option RegionStatus → RegionStatus
region_or c none = record {
  role = c.region_role;
  health_status = healthy;
  replication_lag_seconds = some 0;
  writable = is_primary c;
}
region_or c (some r) = record r { role = c.region_role; writable = is_primary c }

-- `_upsert_local_region_status`
unfoldable pub local_of : Settings → World → RegionStatus
local_of c w = region_or c w.local

pub record PeerSignal : Type 0 where
  pub health_status : Health
  pub active_primary_region : Option String

abbrev pub is_healthy : Health → Bool
is_healthy healthy = true
is_healthy _ = false

-- `signal.get("active_primary_region") and ... != settings.region_id`: the empty text is false.
abbrev pub names_other : Settings → Option String → Bool
names_other c none = false
names_other c (some r) = not (str_eq r "") && not (str_eq r c.region_id)

unfoldable pub split_brain_risk : Settings → List PeerSignal → Bool
split_brain_risk c [] = false
split_brain_risk c (p ∷ ps) =
    is_healthy p.health_status && names_other c p.active_primary_region || split_brain_risk c ps

pub data Recommendation : Type 0 where
  hold freeze promote_candidate recover_primary : Recommendation

pub record ReadinessResult : Type 0 where
  pub readiness_score : ℕ
  pub recommendation : Recommendation
  pub blockers : List Blocker
  pub replication_lag_seconds : Option ℕ
  pub split_brain_risk : Bool

-- One check of `evaluate_readiness`: the blocker that it adds, and what it takes off the score.
abbrev pub Finding : Type 0
Finding = List Blocker × ℕ

unfoldable pub lag_finding : Settings → Option ℕ → Finding
lag_finding c none =
    if c.replication_health_required then (replication_lag_unknown ∷ [], 25) else ([], 0)
lag_finding c (some lag) =
    if c.replication_health_required && ltb c.replication_lag_max_seconds lag
    then (replication_lag_too_high ∷ [], 40)
    else ([], 0)

abbrev pub is_unhealthy : Health → Bool
is_unhealthy degraded = true
is_unhealthy down = true
is_unhealthy _ = false

abbrev pub finding_if : Bool → Blocker → ℕ → Finding
finding_if b k n = if b then (k ∷ [], n) else ([], 0)

abbrev pub no_blockers : List Blocker → Bool
no_blockers [] = true
no_blockers (k ∷ ks) = false

unfoldable pub recommend : Settings → Cluster → RegionStatus → List Blocker → Recommendation
recommend c s r blockers =
    if s.freeze_writes
    then freeze
    else if no_blockers blockers && not (str_eq s.active_primary_region c.region_id)
    then promote_candidate
    else if str_eq s.active_primary_region c.region_id && is_healthy r.health_status
    then recover_primary
    else hold

-- `evaluate_readiness`. The score stops at 0 at once, where the source clamps it at the end.
unfoldable pub evaluate_readiness :
    Settings → Cluster → RegionStatus → List PeerSignal → Bool → ReadinessResult
unfolding lag_finding recommend
evaluate_readiness c s r peers db_writable =
    let lag = lag_finding c r.replication_lag_seconds in
    let db = finding_if (not db_writable || not r.writable) db_not_writable 60 in
    let risk = split_brain_risk c peers in
    let brain = finding_if risk split_brain 70 in
    let ill = finding_if (is_unhealthy r.health_status) local_region_unhealthy 40 in
    let blockers = lag.0 ++ (db.0 ++ (brain.0 ++ ill.0)) in
    record {
      readiness_score = min 100 (100 - lag.1 - db.1 - brain.1 - ill.1);
      recommendation = recommend c s r blockers;
      blockers = blockers;
      replication_lag_seconds = r.replication_lag_seconds;
      split_brain_risk = risk;
    }
