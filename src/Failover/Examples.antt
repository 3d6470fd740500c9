-- ===== src/Failover/Examples.antt =====
-- Two regions: `eu` takes over from `us`, and gives the primary back.
use nexus_rag.Prelude.{◌≡◌, refl, String, eq_iff, true, false, none, some, [], ◌∷◌, arith}
use nexus_rag.Failover.{
  State, EventStatus, Purpose, Settings, Cluster, RegionStatus, FailoverToken, free, World, ok,
  Transition, healthy,
}
use nexus_rag.Failover.Region.{
  cluster_of, local_of, PeerSignal, split_brain_risk, evaluate_readiness,
}
use nexus_rag.Failover.Gate.{run, mutation, enforce_write_gate}
use nexus_rag.Failover.Token.{consume}
use nexus_rag.Failover.Attempt.{Call, Attempt, run_attempt}
use nexus_rag.Failover.Promote.{promote_locked, promote_region, find_event, replay, start_attempt}
use nexus_rag.Failover.Rollback.{rollback_failover}
use nexus_rag.Failover.Rollback.Restore.{promote-rollback}
use nexus_rag.Failover.Safety.{Promoted, promote_region-Promoted, one_writer}
use nexus_rag.Failover.Failure.{promote_region-Moves, Moves}

abbrev eu : Settings
eu = record {
  failover_enabled = true;
  region_id = "eu";
  region_role = "primary";
  write_freeze_on_unhealthy_replica = true;
  replication_health_required = true;
  replication_lag_max_seconds = 30;
  failover_cooldown_seconds = 300;
  failover_token_ttl_seconds = 600;
}

abbrev token : String → Purpose → FailoverToken
token h p = record { id = h; token_hash = h; expires_at = 5000; used_at = none; purpose = p }

abbrev us_primary : Cluster
us_primary = record {
  active_primary_region = "us";
  epoch = 4;
  last_transition_at = none;
  cooldown_until = none;
  freeze_writes = false;
  state = State.idle;
  previous_primary = none;
  write_freeze_reason = none;
}

abbrev eu_local : RegionStatus
eu_local = record {
  role = "primary";
  health_status = healthy;
  replication_lag_seconds = some 2;
  writable = true;
}

abbrev world : World
world = record {
  cluster = some us_primary;
  local = some eu_local;
  tokens = token "go" Purpose.promote ∷ token "back" Purpose.rollback ∷ [];
  events = [];
  lock = free;
  audits = [];
  failed_total = 0;
  completed_total = 0;
}

abbrev take_over : Call
take_over = record {
  target_region = "eu";
  plaintext_token = "go";
  force = false;
  request_id = some "r1";
  token_hash = λ s. s;
  now = 1000;
  completed_at = 1001;
  lock_id = "l1";
  peers = [];
  writable_at_precheck = true;
  writable_at_verification = true;
}

abbrev give_back : Call
give_back = record take_over { plaintext_token = "back"; now = 1400; lock_id = "l2" }

abbrev us_healthy : PeerSignal
us_healthy = record { health_status = healthy; active_primary_region = some "us" }

-- The peer still calls itself the primary.
abbrev contested : Call
contested = record take_over { peers = us_healthy ∷ [] }

abbrev taken : Transition
taken = record {
  status = EventStatus.completed;
  from_region = "us";
  to_region = "eu";
  epoch = 5;
  freeze_writes = false;
  blockers = [];
}

take_over_completes : (promote_region eu take_over world).1 ≡ ok taken
unfolding promote_region promote_locked cluster_of local_of consume run_attempt find_event replay
    evaluate_readiness split_brain_risk
take_over_completes = refl

promote_region-Promoted_example : Promoted eu take_over world (promote_region eu take_over world).0
unfolding replay find_event
promote_region-Promoted_example =
    promote_region-Promoted eu take_over world taken refl take_over_completes

back_token :
    consume "back" 1400 Purpose.rollback (promote_region eu take_over world).0.tokens
    ≡ some (
      record (token "back" Purpose.rollback) { used_at = some 1400 },
      record (token "go" Purpose.promote) { used_at = some 1000 }
          ∷ record (token "back" Purpose.rollback) { used_at = some 1400 }
          ∷ [],
    )
unfolding promote_region promote_locked cluster_of local_of consume run_attempt find_event replay
    evaluate_readiness split_brain_risk
back_token = refl

promote-rollback_example :
    let s =
      cluster_of eu 1400 (rollback_failover eu give_back (promote_region eu take_over world).0).0 in
    (s.active_primary_region ≡ "us") × (s.epoch ≡ 6) × (s.freeze_writes ≡ false)
unfolding cluster_of find_event replay
promote-rollback_example =
    promote-rollback eu take_over give_back world taken _ refl take_over_completes
      (ground (arith, eq_iff "us" "")) (omega arith) refl refl back_token

abbrev attempt : Attempt
attempt = start_attempt take_over world us_primary "go"

abbrev unwritable : Call
unwritable = record take_over { writable_at_verification = false }

abbrev cooling : World
cooling = record world { cluster = some (record us_primary { cooldown_until = some 1200 }) }

promote_region-Moves_example :
    Moves "eu" us_primary (cluster_of eu 1000 (promote_region eu contested world).0)
unfolding cluster_of
promote_region-Moves_example = promote_region-Moves eu contested world

abbrev eu_primary_cluster : Cluster
eu_primary_cluster = record us_primary { active_primary_region = "eu" }

abbrev eu_primary : World
eu_primary = record world { cluster = some eu_primary_cluster }

one_writer_example :
    (eu.region_id ≡ eu.region_id)
    × (eu_primary_cluster.active_primary_region ≡ eu.region_id)
    × (eu.region_role ≡ "primary")
    × (eu_primary_cluster.freeze_writes ≡ false)
unfolding enforce_write_gate
one_writer_example =
    one_writer eu eu 1000 eu_primary eu_primary eu_primary_cluster run mutation refl refl refl refl
      refl refl refl refl
