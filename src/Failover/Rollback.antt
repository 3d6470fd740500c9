-- ===== src/Failover/Rollback.antt =====
-- `rollback_failover`.
pub mod Restore
use nexus_rag.Prelude.{
  ℕ, ◌+◌, String, str_eq, Bool, true, false, not, Option, none, some, [], ◌∷◌, if◌then◌else◌,
}
use nexus_rag.Failover.{
  State, EventStatus, Purpose, Code, Settings, Cluster, FailoverEvent, Audit, World, Result, ok,
  raised, Transition,
}
use nexus_rag.Failover.Region.{cluster_of}
use nexus_rag.Failover.Token.{consume}
use nexus_rag.Failover.Attempt.{Call}
use nexus_rag.Failover.Promote.{lock_taken, locked, unlocked, cools, transition_of}

-- The previous primary, unless there is none or its text is empty.
unfoldable pub usable_previous : Option String → Option String
usable_previous none = none
usable_previous (some r) = if str_eq r "" then none else some r

abbrev pub rollback_event : Call → Cluster → String → String → FailoverEvent
rollback_event o s token_id previous = record {
  from_region = s.active_primary_region;
  to_region = previous;
  status = EventStatus.rolled_back;
  approval_token_id = token_id;
  request_id = o.request_id;
  error_code = none;
  completed_at = some o.completed_at;
  state = State.rolled_back;
  state_history = State.rollback_pending ∷ State.rolled_back ∷ [];
  blockers = [];
}

abbrev pub rolled_back_cluster : Settings → Call → Cluster → String → Cluster
rolled_back_cluster c o s previous = record s {
  active_primary_region = previous;
  epoch = s.epoch + 1;
  last_transition_at = some o.now;
  cooldown_until = some (o.now + c.failover_cooldown_seconds);
  freeze_writes = false;
  state = State.rolled_back;
}

-- The `except HTTPException` clause.
abbrev pub refuse : Code → World → World × Result Transition
refuse k w = (
  record w { audits = Audit.rollback_failed ∷ w.audits; failed_total = w.failed_total + 1 },
  raised k,
)

-- What is done under the lock: the cooldown, the token, and the change of the primary.
unfoldable pub rollback_locked : Settings → Call → World → World × Result Transition
rollback_locked c o w =
    let s = cluster_of c o.now w in
    let w' = record w { cluster = some s } in
    if cools s o.now
    then refuse Code.cooldown_active w'
    else elim (consume (o.token_hash o.plaintext_token) o.now Purpose.rollback w.tokens) [
      | none ↦ refuse Code.token_invalid w'
      | some (token, tokens) ↦ elim (usable_previous s.previous_primary) [
        | none ↦ refuse Code.not_allowed (record w' { tokens = tokens })
        | some previous ↦
            let e = rollback_event o s token.id previous in
            let s' = rolled_back_cluster c o s previous in
            (
              record w' {
                tokens = tokens;
                cluster = some s';
                events = e ∷ w.events;
                audits = Audit.rollback_completed ∷ w.audits;
              },
              ok (transition_of s' e),
            )
      ]
    ]

-- `rollback_failover`
unfoldable pub rollback_failover : Settings → Call → World → World × Result Transition
rollback_failover c o w =
    if not c.failover_enabled
    then (w, raised Code.not_allowed)
    else if lock_taken w.lock
    then (w, raised Code.in_progress)
    else (let (w', r) = rollback_locked c o (record w { lock = locked o.lock_id w.lock }) in
        (record w' { lock = unlocked o.lock_id w'.lock }, r))
