-- ===== src/Failover/Gate.antt =====
-- `enforce_write_gate` and `set_write_freeze`.
use nexus_rag.Prelude.{
  ℕ, String, str_eq, Bool, true, false, ◌&&◌, ◌||◌, not, Option, none, some, ◌∷◌, ltb,
  if◌then◌else◌,
}
use nexus_rag.Failover.{
  State, Settings, Cluster, RegionStatus, World, Result, ok, raised, Code, Audit,
}
use nexus_rag.Failover.Region.{cluster_of, local_of}

pub data RouteClass : Type 0 where
  run mutation read ops : RouteClass

-- `route_class not in {"mutation", "run"}`, negated.
abbrev pub writes : RouteClass → Bool
writes run = true
writes mutation = true
writes _ = false

-- The replication lag is known and above the limit.
abbrev pub lags : Settings → Option ℕ → Bool
lags c none = false
lags c (some lag) = ltb c.replication_lag_max_seconds lag

unfoldable pub is_frozen : Settings → Cluster → RegionStatus → Bool
is_frozen c s r =
    (s.freeze_writes || not (str_eq s.active_primary_region c.region_id))
    || not (str_eq r.role "primary")
    || c.write_freeze_on_unhealthy_replica
      && (c.replication_health_required && lags c r.replication_lag_seconds)

-- `enforce_write_gate`
unfoldable pub enforce_write_gate : Settings → ℕ → RouteClass → World → World × Result (Unit {0})
unfolding cluster_of local_of is_frozen
enforce_write_gate c now route w =
    if not c.failover_enabled || not (writes route)
    then (w, ok tt)
    else (let s = cluster_of c now w in
        let r = local_of c w in
        let w' = record w { cluster = some s; local = some r } in
        if is_frozen c s r
        then (record w' { audits = Audit.write_frozen ∷ w.audits }, raised Code.write_frozen)
        else (w', ok tt))

-- `set_write_freeze`
unfoldable pub set_write_freeze : Settings → ℕ → Bool → Option String → World → World
unfolding cluster_of
set_write_freeze c now freeze reason w =
    let s = cluster_of c now w in
    record w {
      cluster = some (record s {
        freeze_writes = freeze;
        state = if freeze then State.freeze_writes else State.idle;
        write_freeze_reason = reason;
      });
      audits = Audit.write_freeze_toggled ∷ w.audits;
    }
