-- ===== src/Operability/Notifications/Queue.antt =====
-- `_create_notification_jobs`, `enqueue_due_notification_jobs` and `retry_notification_job_now`.
-- The payload, the route and the alert of a job are left out, since nothing here depends on them.

pub mod Dedupe
pub mod Final
use nexus_rag.Prelude.{
  ℕ, zero, suc, ◌+◌, ◌*◌, max, String, str_eq, Bool, true, false, ◌&&◌, ◌||◌, Option, none, some,
  List, [], ◌∷◌, ltb, leb, ◌==◌, if◌then◌else◌,
}
use nexus_rag.Operability.Notifications.{
  Status, queued, retrying, delivering, delivered, dlq, NotificationJob, Audit, enqueued,
  enqueue_degraded, World, Settings, is_ready, find_job, store_job, enqueue_notification_job,
}
use nexus_rag.Operability.Notifications.Backoff.{dedupe_window_start}
use nexus_rag.Operability.Notifications.Delivery.{audit, stored}

-- What the jobs of one notification share.
pub record Notice : Type 0 where
  pub tenant_id : String
  pub incident_id : Option String
  pub dedupe_key : String

-- A destination, with the id that is drawn for its job.
pub record Destination : Type 0 where
  pub job_id : String
  pub url : String

abbrev pub new_job : Settings → ℕ → Notice → Destination → NotificationJob
new_job c now n d = record {
  id = d.job_id;
  tenant_id = n.tenant_id;
  incident_id = n.incident_id;
  destination = d.url;
  dedupe_key = n.dedupe_key;
  dedupe_window_start = dedupe_window_start now c.notify_dedupe_window_s;
  status = queued;
  next_attempt_at = now * 1000;
  attempt_count = 0;
  last_error = none;
  created_at = now * 1000;
  updated_at = now * 1000;
}

-- Two values of a unique column clash; a missing one clashes with none.
abbrev pub clash : Option String → Option String → Bool
clash (some a) (some b) = str_eq a b
clash _ _ = false

-- `uq_notification_jobs_dedupe_window`
unfoldable pub same_key : NotificationJob → NotificationJob → Bool
same_key i j =
    str_eq i.tenant_id j.tenant_id
    && (clash i.incident_id j.incident_id
        && (str_eq i.destination j.destination
            && (str_eq i.dedupe_key j.dedupe_key
                && i.dedupe_window_start == j.dedupe_window_start)))

unfoldable pub is_taken : NotificationJob → List NotificationJob → Bool
is_taken i [] = false
is_taken i (j ∷ js) = same_key i j || is_taken i js

-- The state after one destination: a duplicate is dropped.
abbrev pub added : NotificationJob → World → World
added j w = if is_taken j w.jobs then w else audit (enqueued j.id) (record w { jobs = j ∷ w.jobs })

-- The loop over the destinations: the ids of the jobs that were added.
unfoldable pub add_jobs : Settings → ℕ → Notice → List Destination → World → World × List String
add_jobs c now n [] w = (w, [])
add_jobs c now n (d ∷ ds) w =
    let j = new_job c now n d in
    let (w', ks) = add_jobs c now n ds (added j w) in
    (w', if is_taken j w.jobs then ks else j.id ∷ ks)

-- The record of a message that the queue did not take.
abbrev pub announced : Bool → String → World → World
announced taken k w = if taken then w else audit (enqueue_degraded k) w

-- The loop over the jobs that were added: `up` says of which the queue takes the message.
unfoldable pub enqueue_jobs : (String → Bool) → List String → World → World
enqueue_jobs up [] w = w
enqueue_jobs up (k ∷ ks) w =
    let (w', taken) = enqueue_notification_job (up k) k 0 w in
    enqueue_jobs up ks (announced taken k w')

-- `_create_notification_jobs`, with the destinations resolved and the time in whole seconds
unfoldable pub create_notification_jobs :
    Settings → ℕ → (String → Bool) → Notice → List Destination → World → World × List String
create_notification_jobs c now up n ds w =
    let (w', ks) = add_jobs c now n ds w in (enqueue_jobs up ks w', ks)

-- The `where` clauses of the select.
abbrev pub is_due : Settings → ℕ → NotificationJob → Bool
is_due c now j =
    is_ready j.status
    && (leb j.next_attempt_at now
        && leb (j.updated_at + max 1 c.notify_worker_poll_interval_s * 1000) now)

-- `order_by(next_attempt_at, created_at)`
abbrev pub is_before : NotificationJob → NotificationJob → Bool
is_before i j =
    ltb i.next_attempt_at j.next_attempt_at
    || i.next_attempt_at == j.next_attempt_at && leb i.created_at j.created_at

unfoldable pub insert_ordered : NotificationJob → List NotificationJob → List NotificationJob
insert_ordered i [] = i ∷ []
insert_ordered i (j ∷ js) =
    let rest = insert_ordered i js in if is_before i j then i ∷ j ∷ js else j ∷ rest

unfoldable pub due_jobs : Settings → ℕ → List NotificationJob → List NotificationJob
due_jobs c now [] = []
due_jobs c now (j ∷ js) =
    let rest = due_jobs c now js in if is_due c now j then insert_ordered j rest else rest

-- `limit`
unfoldable pub first_ids : ℕ → List NotificationJob → List String
first_ids _ [] = []
first_ids zero (j ∷ js) = []
first_ids (suc n) (j ∷ js) = j.id ∷ first_ids n js

unfoldable pub is_among : String → List String → Bool
is_among k [] = false
is_among k (i ∷ rest) = str_eq k i || is_among k rest

-- The update of the rows that were selected.
unfoldable pub touch_jobs : ℕ → List String → List NotificationJob → List NotificationJob
touch_jobs now ks [] = []
touch_jobs now ks (j ∷ js) =
    (if is_among j.id ks then record j { updated_at = now } else j) ∷ touch_jobs now ks js

-- The messages of the jobs selected, and how many the queue took.
unfoldable pub enqueue_all : (String → Bool) → List String → World → World × ℕ
enqueue_all up [] w = (w, 0)
enqueue_all up (k ∷ ks) w =
    let (w', taken) = enqueue_notification_job (up k) k 0 w in
    let (w'', n) = enqueue_all up ks w' in (w'', if taken then suc n else n)

-- `enqueue_due_notification_jobs`
unfoldable pub enqueue_due_notification_jobs :
    Settings → Bool → ℕ → (String → Bool) → ℕ → World → World × ℕ
enqueue_due_notification_jobs c paused now up limit w =
    if paused
    then (w, 0)
    else (let ks = first_ids (max 1 limit) (due_jobs c now w.jobs) in
        enqueue_all up ks (record w { jobs = touch_jobs now ks w.jobs }))

-- What `retry_notification_job_now` answers.
pub data RetryAnswer : Type 0 where
  not_found paused_ dead_lettered_ delivering_ : RetryAnswer
  row : NotificationJob → RetryAnswer

abbrev pub retried : ℕ → NotificationJob → NotificationJob
retried now j = record j { status = queued; next_attempt_at = now; updated_at = now }

abbrev pub retry_row : ℕ → Bool → NotificationJob → Status → World → World × RetryAnswer
retry_row now up j delivered w = (w, row j)
retry_row now up j dlq w = (w, dead_lettered_)
retry_row now up j delivering w = (w, delivering_)
retry_row now up j _ w =
    ((enqueue_notification_job up j.id 0 (stored (retried now j) w)).0, row (retried now j))

-- `retry_notification_job_now`
unfoldable pub retry_notification_job_now :
    Bool → ℕ → Bool → String → String → World → World × RetryAnswer
retry_notification_job_now paused now up tenant k w =
    if paused then (w, paused_) else elim (find_job k w.jobs) [
      | none ↦ (w, not_found)
      | some j ↦ if str_eq j.tenant_id tenant then retry_row now up j j.status w else (w, not_found)
    ]
