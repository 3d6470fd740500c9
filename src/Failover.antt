-- ===== src/Failover.antt =====
-- nexusrag/services/failover.py: which region is the primary, who may write, and how the primary is
-- moved and moved back. This file holds the rows and settings that the operations share.
pub mod Machine
pub mod Region
pub mod Gate
pub mod Token
pub mod Attempt
pub mod Promote
pub mod Rollback
pub mod Safety
pub mod Failure
mod Examples
use nexus_rag.Prelude.{ℕ, String, Bool, Option, List}

-- The `FAILOVER_STATE_*` constants.
pub data State : Type 0 where
  idle freeze_writes precheck promoting verification completed failed : State
  rollback_pending rolled_back : State

-- The `EVENT_STATUS_*` constants.
pub data EventStatus : Type 0 where
  requested validated executing completed failed rolled_back : EventStatus

pub data Purpose : Type 0 where
  promote rollback : Purpose

-- The codes of `_failover_error`.
pub data Code : Type 0 where
  not_allowed precheck_failed in_progress cooldown_active token_invalid : Code
  split_brain_risk write_frozen : Code

-- The texts of `blockers`.
pub data Blocker : Type 0 where
  replication_lag_unknown replication_lag_too_high db_not_writable split_brain : Blocker
  local_region_unhealthy : Blocker

pub data Health : Type 0 where
  healthy degraded down other : Health

pub record Settings : Type 0 where
  pub failover_enabled : Bool
  pub region_id : String
  pub region_role : String
  pub write_freeze_on_unhealthy_replica : Bool
  pub replication_health_required : Bool
  pub replication_lag_max_seconds : ℕ
  pub failover_cooldown_seconds : ℕ
  pub failover_token_ttl_seconds : ℕ

-- The row of `FailoverClusterState`; the entries of its `metadata_json` are fields here.
pub record Cluster : Type 0 where
  pub active_primary_region : String
  pub epoch : ℕ
  pub last_transition_at : Option ℕ
  pub cooldown_until : Option ℕ
  pub freeze_writes : Bool
  pub state : State
  pub previous_primary : Option String
  pub write_freeze_reason : Option String

-- The row of `RegionStatus` for the local region.
pub record RegionStatus : Type 0 where
  pub role : String
  pub health_status : Health
  pub replication_lag_seconds : Option ℕ
  pub writable : Bool

pub record FailoverToken : Type 0 where
  pub id : String
  pub token_hash : String
  pub expires_at : ℕ
  pub used_at : Option ℕ
  pub purpose : Purpose

-- The row of `FailoverEvent`; the entries of its `report_json` are fields here.
pub record FailoverEvent : Type 0 where
  pub from_region : String
  pub to_region : String
  pub status : EventStatus
  pub approval_token_id : String
  pub request_id : Option String
  pub error_code : Option Code
  pub completed_at : Option ℕ
  pub state : State
  pub state_history : List State
  pub blockers : List Blocker

-- The lock in Redis: no client, nobody's, or the holder's.
pub data Lock : Type 0 where
  no_redis free : Lock
  held : String → Lock

pub data Audit : Type 0 where
  promote_requested promote_completed promote_failed : Audit
  rollback_completed rollback_failed write_freeze_toggled write_frozen : Audit

-- The tables, the lock, the audit trail and two counters; the newest row stands first.
pub record World : Type 0 where
  pub cluster : Option Cluster
  pub local : Option RegionStatus
  pub tokens : List FailoverToken
  pub events : List FailoverEvent
  pub lock : Lock
  pub audits : List Audit
  pub failed_total : ℕ
  pub completed_total : ℕ

-- How a call ends: with a value, or with an `HTTPException` of the given code.
pub data Result (A : Type 0) : Type 0 where
  ok : A → Result A
  raised : Code → Result A

-- `FailoverTransitionResult`
pub record Transition : Type 0 where
  pub status : EventStatus
  pub from_region : String
  pub to_region : String
  pub epoch : ℕ
  pub freeze_writes : Bool
  pub blockers : List Blocker
