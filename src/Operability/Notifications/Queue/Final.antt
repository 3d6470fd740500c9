-- ===== src/Operability/Notifications/Queue/Final.antt =====
-- Which rows no worker and no operator moves any more.
use nexus_rag.Prelude.{
  ℕ, ◌≡◌, ◌⊎◌, refl, sym, ap, ◌∙◌, String, str_eq, eq_iff, Bool, true, false, Option, none, some,
  List, [], ◌∷◌, arith, Bool-cases, Option-cases, inl, inr, max,
}
use nexus_rag.Operability.Notifications.{
  Status, queued, retrying, delivering, delivered, dlq, NotificationJob, World, Settings, is_ready,
  find_job, store_job, enqueue_notification_job,
}
use nexus_rag.Operability.Notifications.Store.{find_job-id}
use nexus_rag.Operability.Notifications.Delivery.{Call, process_notification_job}
use nexus_rag.Operability.Notifications.Settle.{
  taken, run, process-run, attempt-Settles, claimed_world,
}
use nexus_rag.Operability.Notifications.Attempts.{unclaimed, claimable-ready}
use nexus_rag.Operability.Notifications.Queue.{
  touch_jobs, enqueue_all, first_ids, due_jobs, enqueue_due_notification_jobs, retry_row, retried,
  retry_notification_job_now,
}

-- What workers and operators do: process the job of a key, put jobs that are due on the queue
-- again, and retry the job of a tenant and a key.
pub data Step : Type 0 where
  process : Call → String → Step
  requeue : Bool → ℕ → (String → Bool) → ℕ → Step
  retry_now : Bool → ℕ → Bool → String → String → Step

-- The status of the row, where there is one.
abbrev pub status_of : Option NotificationJob → Option Status
status_of none = none
status_of (some j) = some j.status

find-store_other :
    (k : String) (js : List NotificationJob) (j : NotificationJob)
    → str_eq k j.id ≡ false
    → find_job k (store_job j js) ≡ find_job k js
unfolding find_job store_job
find-store_other k [] j e = refl
find-store_other k (i ∷ js) j e =
    ground (arith, eq_iff k i.id, eq_iff j.id i.id, eq_iff k j.id, find-store_other k js j e)

touch_jobs-status :
    (now : ℕ) (ks : List String) (k : String) (js : List NotificationJob)
    → status_of (find_job k (touch_jobs now ks js)) ≡ status_of (find_job k js)
unfolding find_job touch_jobs
touch_jobs-status now ks k [] = refl
touch_jobs-status now ks k (j ∷ js) = ground (arith, touch_jobs-status now ks k js)

enqueue-jobs :
    (up : Bool) (k : String) (defer_ms : ℕ) (w : World)
    → (enqueue_notification_job up k defer_ms w).0.jobs ≡ w.jobs
unfolding enqueue_notification_job
enqueue-jobs true k defer_ms w = refl
enqueue-jobs false k defer_ms w = refl

enqueue_all-jobs :
    (up : String → Bool) (ks : List String) (w : World) → (enqueue_all up ks w).0.jobs ≡ w.jobs
unfolding enqueue_all
enqueue_all-jobs up [] w = refl
enqueue_all-jobs up (k ∷ ks) w = enqueue_all-jobs up ks _ ∙ enqueue-jobs (up k) k 0 w

requeue-status :
    (c : Settings) (paused : Bool) (now : ℕ) (up : String → Bool) (limit : ℕ) (k : String)
    (w : World)
    → status_of (find_job k (enqueue_due_notification_jobs c paused now up limit w).0.jobs)
      ≡ status_of (find_job k w.jobs)
unfolding enqueue_due_notification_jobs
requeue-status c true now up limit k w = refl
requeue-status c false now up limit k w =
    let ks = first_ids (max 1 limit) (due_jobs c now w.jobs) in
    ap (λ js. status_of (find_job k js))
      (enqueue_all-jobs up ks (record w { jobs = touch_jobs now ks w.jobs }))
    ∙ touch_jobs-status now ks k w.jobs

-- A key whose row is not ready is not the key of a row that is.
other_key :
    (k k' : String) (js : List NotificationJob) (j i : NotificationJob)
    → find_job k js ≡ some j
    → is_ready j.status ≡ false
    → find_job k' js ≡ some i
    → is_ready i.status ≡ true
    → str_eq k i.id ≡ false
other_key k k' js j i found final there ready = elim (Bool-cases (str_eq k i.id)) [
  | inl same ↦ ground (arith, eq_iff k i.id, find_job-id k' js i there)
  | inr other ↦ other
]

retry_row-jobs :
    (now : ℕ) (up : Bool) (i : NotificationJob) (s : Status) (w : World)
    → ((retry_row now up i s w).0.jobs ≡ w.jobs)
      ⊎ ((is_ready s ≡ true) × ((retry_row now up i s w).0.jobs ≡ store_job (retried now i) w.jobs))
retry_row-jobs now up i delivered w = inl refl
retry_row-jobs now up i dlq w = inl refl
retry_row-jobs now up i delivering w = inl refl
retry_row-jobs now up i queued w = inr (refl, enqueue-jobs up i.id 0 _)
retry_row-jobs now up i retrying w = inr (refl, enqueue-jobs up i.id 0 _)

retry_row-found :
    (now : ℕ) (up : Bool) (k k' : String) (j i : NotificationJob) (w : World)
    → find_job k w.jobs ≡ some j
    → is_ready j.status ≡ false
    → find_job k' w.jobs ≡ some i
    → find_job k (retry_row now up i i.status w).0.jobs ≡ some j
retry_row-found now up k k' j i w found final there = elim (retry_row-jobs now up i i.status w) [
  | inl same ↦ ap (find_job k) same ∙ found
  | inr (ready, written) ↦
      ap (find_job k) written
      ∙ find-store_other k w.jobs (retried now i)
          (other_key k k' w.jobs j i found final there ready)
      ∙ found
]

retry-found :
    (paused : Bool) (now : ℕ) (up : Bool) (tenant k' k : String) (w : World) (j : NotificationJob)
    → find_job k w.jobs ≡ some j
    → is_ready j.status ≡ false
    → find_job k (retry_notification_job_now paused now up tenant k' w).0.jobs ≡ some j
unfolding retry_notification_job_now
retry-found paused now up tenant k' k w j found final = elim (Option-cases (find_job k' w.jobs)) [
  | inl missing ↦ ground arith
  | inr (i, there) ↦ ground (arith, retry_row-found now up k k' j i w found final there)
]

module _ (digest : String → ℕ → ℕ) where
  process-found :
      (c : Settings) (o : Call) (k' k : String) (w : World) (j : NotificationJob)
      → find_job k w.jobs ≡ some j
      → is_ready j.status ≡ false
      → find_job k (process_notification_job digest c o k' w).0.jobs ≡ some j
  process-found c o k' k w j found final = elim (unclaimed digest c o k' w) [
    | inl same ↦ ap (λ r. find_job k r.0.jobs) same ∙ found
    | inr (i, on, there, ready) ↦
        let ends = attempt-Settles digest c o (taken o i) (claimed_world o i w) in
        let other =
          other_key k k' w.jobs j i found final there (claimable-ready o.claimed_at i ready) in
        sym (ap (λ r. find_job k r.0.jobs) (process-run digest c o k' w i on there ready))
        ∙ ap (find_job k) ends.1
        ∙ find-store_other k (store_job (taken o i) w.jobs) (run digest c o i w).1
            (ap (str_eq k) ends.2 ∙ other)
        ∙ find-store_other k w.jobs (taken o i) other
        ∙ found
  ]

  unfoldable pub perform : Settings → Step → World → World
  perform c (process o k) w = (process_notification_job digest c o k w).0
  perform c (requeue paused now up limit) w =
      (enqueue_due_notification_jobs c paused now up limit w).0
  perform c (retry_now paused now up tenant k) w =
      (retry_notification_job_now paused now up tenant k w).0

  unfoldable pub perform_all : Settings → List Step → World → World
  perform_all c [] w = w
  perform_all c (s ∷ ss) w = perform_all c ss (perform c s w)

  step-status :
      (c : Settings) (step : Step) (k : String) (w : World) (s : Status)
      → status_of (find_job k w.jobs) ≡ some s
      → is_ready s ≡ false
      → status_of (find_job k (perform c step w).jobs) ≡ some s
  unfolding perform
  step-status c (requeue paused now up limit) k w s found final =
      requeue-status c paused now up limit k w ∙ found
  step-status c (process o k') k w s found final = elim (Option-cases (find_job k w.jobs)) [
    | inl missing ↦ ground arith
    | inr (j, there) ↦ ap status_of (process-found c o k' k w j there (ground arith)) ∙ ground arith
  ]
  step-status c (retry_now paused now up tenant k') k w s found final =
      elim (Option-cases (find_job k w.jobs)) [
        | inl missing ↦ ground arith
        | inr (j, there) ↦
            ap status_of (retry-found paused now up tenant k' k w j there (ground arith))
            ∙ ground arith
      ]

  -- A job that is delivered or dead, and also one that a worker claimed and did not finish, keeps
  -- its status whatever workers and operators do from then on.
  pub status_stays :
      (c : Settings) (ss : List Step) (k : String) (w : World) (s : Status)
      → status_of (find_job k w.jobs) ≡ some s
      → is_ready s ≡ false
      → status_of (find_job k (perform_all c ss w).jobs) ≡ some s
  unfolding perform_all
  status_stays c [] k w s found final = found
  status_stays c (step ∷ ss) k w s found final =
      status_stays c ss k (perform c step w) s (step-status c step k w s found final) final
