-- ===== src/Operability/Notifications.antt =====
-- The rows that nexusrag/services/operability/notifications.py keeps (nexusrag/domain/models.py),
-- and the settings it reads. Times count milliseconds.
pub mod Backoff
pub mod Store
pub mod Delivery
pub mod Settle
pub mod Attempts
pub mod Queue
mod Examples
use nexus_rag.Prelude.{
  ℕ, ◌+◌, ◌-◌, ◌*◌, ◌^◌, ◌%◌, min, max, String, str_eq, Bool, true, false, ◌&&◌, ◌||◌, Option, none,
  some, List, [], ◌∷◌, leb, if◌then◌else◌,
}

pub data Status : Type 0 where
  queued retrying delivering delivered dlq : Status

pub record NotificationJob : Type 0 where
  pub id : String
  pub tenant_id : String
  pub incident_id : Option String
  pub destination : String
  pub dedupe_key : String
  pub dedupe_window_start : ℕ
  pub status : Status
  pub next_attempt_at : ℕ
  pub attempt_count : ℕ
  pub last_error : Option String
  pub created_at : ℕ
  pub updated_at : ℕ

pub data AttemptOutcome : Type 0 where
  running success failure : AttemptOutcome

pub record NotificationAttempt : Type 0 where
  pub job_id : String
  pub attempt_no : ℕ
  pub started_at : ℕ
  pub finished_at : Option ℕ
  pub outcome : AttemptOutcome
  pub error : Option String

pub record NotificationDeadLetter : Type 0 where
  pub job_id : String
  pub reason : String
  pub last_error : Option String

pub data Audit : Type 0 where
  enqueued enqueue_degraded claimed delivered_ dead_lettered retry_scheduled signature_missing :
      String → Audit

-- The tables, the last row inserted first but for the jobs; the messages on the queue, each a job
-- with the milliseconds it is deferred by; and the audit trail.
pub record World : Type 0 where
  pub jobs : List NotificationJob
  pub attempts : List NotificationAttempt
  pub dead_letters : List NotificationDeadLetter
  pub queue : List (String × ℕ)
  pub audits : List Audit

pub record Settings : Type 0 where
  pub notify_backoff_ms : ℕ
  pub notify_backoff_max_ms : ℕ
  pub notify_max_attempts : ℕ
  pub notify_max_age_seconds : ℕ
  pub notify_dedupe_window_s : ℕ
  pub notify_worker_poll_interval_s : ℕ

-- `status in _READY_STATUSES`
abbrev pub is_ready : Status → Bool
is_ready queued = true
is_ready retrying = true
is_ready _ = false

-- The row of the primary key.
unfoldable pub find_job : String → List NotificationJob → Option NotificationJob
find_job k [] = none
find_job k (j ∷ js) = let rest = find_job k js in if str_eq k j.id then some j else rest

-- The table with the row of its key changed.
unfoldable pub store_job : NotificationJob → List NotificationJob → List NotificationJob
store_job j [] = []
store_job j (i ∷ js) = let rest = store_job j js in if str_eq j.id i.id then j ∷ rest else i ∷ rest

-- `enqueue_notification_job`: whether the queue takes the message is `up`.
unfoldable pub enqueue_notification_job : Bool → String → ℕ → World → World × Bool
enqueue_notification_job up k defer_ms w =
    if up then (record w { queue = (k, defer_ms) ∷ w.queue }, true) else (w, false)
