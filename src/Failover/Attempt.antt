-- ===== src/Failover/Attempt.antt =====
-- One attempt of `promote_region`, between the token and the answer. Rows are the objects that the
-- session holds; a later commit writes them. What the caller and the world supply during one call
-- stands in `Call`.
use nexus_rag.Prelude.{
  ℕ, ◌+◌, String, str_eq, Bool, true, false, ◌&&◌, not, Option, none, some, List, [], ◌∷◌, ◌++◌,
  if◌then◌else◌,
}
use nexus_rag.Failover.{
  State, EventStatus, Code, Settings, Cluster, RegionStatus, FailoverEvent, Audit,
}
use nexus_rag.Failover.Machine.{state_transition_allowed}
use nexus_rag.Failover.Region.{PeerSignal, ReadinessResult, evaluate_readiness, no_blockers}

-- The arguments of one call, the clock when the lock is held and when the event is completed, the
-- lock's id, the peers' answers and the two probes of the database.
pub record Call : Type 0 where
  pub target_region : String
  pub plaintext_token : String
  pub force : Bool
  pub request_id : Option String
  pub token_hash : String → String
  pub now : ℕ
  pub completed_at : ℕ
  pub lock_id : String
  pub peers : List PeerSignal
  pub writable_at_precheck : Bool
  pub writable_at_verification : Bool

-- What the body of the inner `try` works on.
pub record Attempt : Type 0 where
  pub cluster : Cluster
  pub event : FailoverEvent
  pub audits : List Audit
  pub failed_total : ℕ

-- The report's state and history move on. The history is that of the object; the code assigns the
-- same dict again to a plain JSON column, which the session does not always write.
abbrev pub enter : State → FailoverEvent → FailoverEvent
enter s e = record e { state = s; state_history = e.state_history ++ s ∷ [] }

-- The freeze of the writes before the precheck.
unfoldable pub freeze_step : Settings → Attempt → Attempt
unfolding state_transition_allowed
freeze_step c a =
    if c.write_freeze_on_unhealthy_replica
      && state_transition_allowed a.event.state State.freeze_writes
    then record a {
      cluster = record a.cluster { freeze_writes = true };
      event = enter State.freeze_writes a.event;
    }
    else a

-- `_precheck_promotion`: the code that it raises.
unfoldable pub precheck_code : Bool → ReadinessResult → Option Code
precheck_code force r =
    if r.split_brain_risk && not force
    then some Code.split_brain_risk
    else if not (no_blockers r.blockers) && not force
    then some Code.precheck_failed
    else none

-- The event is validated, and the region is made the primary.
unfoldable pub promoting_step : Settings → Call → ReadinessResult → Attempt → Attempt
promoting_step c o r a =
    let validated = record (enter State.precheck a.event) { blockers = r.blockers } in
    let executing = enter State.promoting validated in
    record a {
      event = record (enter State.verification executing) { status = EventStatus.executing };
      cluster = record a.cluster {
        active_primary_region = o.target_region;
        epoch = a.cluster.epoch + 1;
        last_transition_at = some o.now;
        cooldown_until = some (o.now + c.failover_cooldown_seconds);
        state = State.promoting;
        previous_primary = some a.event.from_region;
      };
    }

-- The verification found that the region cannot be written.
unfoldable pub refute_step : Call → Attempt → Attempt
refute_step o a = record a {
  event = record (enter State.failed a.event) {
    status = EventStatus.failed;
    error_code = some Code.precheck_failed;
    completed_at = some o.completed_at;
  };
  cluster = record a.cluster { state = State.failed };
  audits = Audit.promote_failed ∷ a.audits;
  failed_total = a.failed_total + 1;
}

unfoldable pub complete_step : Call → Attempt → Attempt
complete_step o a = record a {
  event = record (enter State.completed a.event) {
    status = EventStatus.completed;
    completed_at = some o.completed_at;
  };
  cluster = record a.cluster { freeze_writes = false; state = State.completed };
  audits = Audit.promote_completed ∷ a.audits;
}

abbrev pub ends_failed : List State → Bool
ends_failed [] = false
ends_failed (State.failed ∷ []) = true
ends_failed (s ∷ ss) = ends_failed ss

-- The `except HTTPException` clause.
unfoldable pub on_failure : Call → Code → Attempt → Attempt
on_failure o code a =
    let history =
      if ends_failed a.event.state_history
      then a.event.state_history
      else a.event.state_history ++ State.failed ∷ [] in
    record a {
      event = record a.event {
        status = EventStatus.failed;
        completed_at = some o.completed_at;
        error_code = some code;
        state = State.failed;
        state_history = history;
      };
      cluster = record a.cluster {
        freeze_writes =
            if str_eq a.event.to_region a.cluster.active_primary_region
            then a.cluster.freeze_writes
            else false;
        state = State.failed;
      };
      audits = Audit.promote_failed ∷ a.audits;
      failed_total = a.failed_total + 1;
    }

-- The inner `try` with its handler: the attempt after it, and the code that is raised again.
unfoldable pub run_attempt : Settings → Call → RegionStatus → Attempt → Attempt × Option Code
unfolding freeze_step precheck_code promoting_step refute_step complete_step on_failure
run_attempt c o local a =
    let a' = freeze_step c a in
    let r = evaluate_readiness c a'.cluster local o.peers o.writable_at_precheck in
    elim (precheck_code o.force r) [
      -- `_precheck_promotion` counts the failure, and so does the handler
      | some code ↦
          (on_failure o code (record a' { failed_total = a'.failed_total + 1 }), some code)
      | none ↦
          let p = promoting_step c o r a' in
          if o.writable_at_verification && local.writable
          then (complete_step o p, none)
          else (on_failure o Code.precheck_failed (refute_step o p), some Code.precheck_failed)
    ]
