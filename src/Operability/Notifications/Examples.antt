-- ===== src/Operability/Notifications/Examples.antt =====
-- A job that fails, waits and is delivered.
use nexus_rag.Prelude.{
  ℕ, ◌+◌, ◌≤◌, ◌≡◌, refl, String, true, false, Option, none, some, List, [], ◌∷◌, arith,
}
use nexus_rag.Operability.Notifications.{
  Status, queued, retrying, delivering, delivered, dlq, NotificationJob, World, Settings, find_job,
  store_job, enqueue_notification_job,
}
use nexus_rag.Operability.Notifications.Backoff.{retry_backoff_ms, dedupe_window_start}
use nexus_rag.Operability.Notifications.Delivery.{
  Call, http_status, other, claim_notification_job, attempt_delivery, settle_retry,
  settle_delivered, settle_dead, process_notification_job,
}
use nexus_rag.Operability.Notifications.Settle.{Ends, process-Settled}
use nexus_rag.Operability.Notifications.Attempts.{claims, after, left_of, claims-left}
use nexus_rag.Operability.Notifications.Queue.{
  Notice, Destination, create_notification_jobs, add_jobs, is_taken,
}
use nexus_rag.Operability.Notifications.Queue.Dedupe.{redrawn, create_once}
use nexus_rag.Operability.Notifications.Queue.Final.{
  process, retry_now, requeue, status_of, perform_all, status_stays,
}

abbrev settings : Settings
settings = record {
  notify_backoff_ms = 1000;
  notify_backoff_max_ms = 60000;
  notify_max_attempts = 3;
  notify_max_age_seconds = 86400;
  notify_dedupe_window_s = 300;
  notify_worker_poll_interval_s = 5;
}

abbrev digest : String → ℕ → ℕ
digest k n = 1000 + n

abbrev job : NotificationJob
job = record {
  id = "j1";
  tenant_id = "t1";
  incident_id = some "i1";
  destination = "https://hooks.example/a";
  dedupe_key = "incident.opened";
  dedupe_window_start = 900;
  status = queued;
  next_attempt_at = 1000000;
  attempt_count = 0;
  last_error = none;
  created_at = 1000000;
  updated_at = 1000000;
}

abbrev start : World
start = record { jobs = job ∷ []; attempts = []; dead_letters = []; queue = []; audits = [] }

abbrev times_out : Call
times_out = record {
  paused = false;
  claimed_at = 1000100;
  started_at = 1000101;
  finished_at = 1000500;
  signing_secret = some "s";
  raises = some (other "timeout");
  queue_up = true;
}

abbrev refused : Call
refused = record times_out { raises = some (http_status 410 "gone") }

abbrev fine : Call
fine = record times_out { claimed_at = 2000000; raises = none }

abbrev status_after : List Call → Option Status
status_after os = status_of (find_job "j1" (after digest settings os "j1" start).jobs)

waits : status_after (times_out ∷ []) ≡ some retrying
unfolding after process_notification_job claim_notification_job attempt_delivery find_job store_job
    settle_retry enqueue_notification_job retry_backoff_ms
waits = refl

too_early :
    (process_notification_job digest settings times_out "j1"
      (after digest settings (times_out ∷ []) "j1" start)).1
    ≡ none
unfolding after process_notification_job claim_notification_job attempt_delivery find_job store_job
    settle_retry enqueue_notification_job retry_backoff_ms
too_early = refl

then_delivered : status_after (times_out ∷ fine ∷ []) ≡ some delivered
unfolding after process_notification_job claim_notification_job attempt_delivery find_job store_job
    settle_retry settle_delivered enqueue_notification_job retry_backoff_ms
then_delivered = refl

rejected : status_after (refused ∷ []) ≡ some dlq
unfolding after process_notification_job claim_notification_job attempt_delivery find_job store_job
    settle_dead
rejected = refl

process-Settled_example :
    Ends settings times_out "j1" start job
      (process_notification_job digest settings times_out "j1" start)
unfolding find_job
process-Settled_example = process-Settled digest settings times_out "j1" start job refl refl refl

claims-left_example :
    claims digest settings (times_out ∷ times_out ∷ fine ∷ fine ∷ []) "j1" start
      + left_of settings (
          find_job "j1"
            (after digest settings (times_out ∷ times_out ∷ fine ∷ fine ∷ []) "j1" start).jobs)
    ≤ 3
unfolding find_job
claims-left_example =
    claims-left digest settings (times_out ∷ times_out ∷ fine ∷ fine ∷ []) "j1" start
      (λ ready. omega arith)

abbrev opened : Notice
opened = record { tenant_id = "t1"; incident_id = some "i1"; dedupe_key = "incident.opened" }

abbrev hooks : List Destination
hooks = record { job_id = "a"; url = "https://hooks.example/a" } ∷ []

abbrev empty : World
empty = record { jobs = []; attempts = []; dead_letters = []; queue = []; audits = [] }

sends_one : (create_notification_jobs settings 1000 (λ k. true) opened hooks empty).1 ≡ "a" ∷ []
unfolding create_notification_jobs add_jobs is_taken
sends_one = refl

create_once_example :
    create_notification_jobs settings 1100
      (λ k. true)
      opened
      (redrawn (λ k. "b") hooks)
      (create_notification_jobs settings 1000 (λ k. true) opened hooks empty).0
    ≡ ((create_notification_jobs settings 1000 (λ k. true) opened hooks empty).0, [])
unfolding dedupe_window_start
create_once_example =
    create_once settings 1000 1100 (λ k. true) (λ k. true) opened hooks (λ k. "b") empty "i1" refl
      refl

abbrev dropped : World
dropped = (claim_notification_job 1000100 "j1" start).0

status_stays_example :
    status_of (
      find_job "j1"
        (perform_all digest settings
          (process fine "j1"
            ∷ requeue false 3000000 (λ k. true) 50
            ∷ retry_now false 3000000 true "t1" "j1"
            ∷ [])
          dropped).jobs)
    ≡ some delivering
unfolding claim_notification_job find_job store_job
status_stays_example =
    status_stays digest settings
      (process fine "j1"
        ∷ requeue false 3000000 (λ k. true) 50
        ∷ retry_now false 3000000 true "t1" "j1"
        ∷ [])
      "j1" dropped delivering refl refl
