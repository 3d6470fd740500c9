-- ===== src/Operability/Notifications/Queue/Dedupe.antt =====
-- A notification that is sent twice in one window.
use mathlib.Core.Path.{subst}
use nexus_rag.Prelude.{
  ℕ, ◌≡◌, refl, ap, sym, ◌∙◌, String, eq_iff, Bool, true, false, some, List, [], ◌∷◌, arith,
}
use nexus_rag.Operability.Notifications.{NotificationJob, World, Settings, enqueue_notification_job}
use nexus_rag.Operability.Notifications.Backoff.{dedupe_window_start}
use nexus_rag.Operability.Notifications.Queue.{
  Notice, Destination, new_job, same_key, is_taken, added, announced, add_jobs, enqueue_jobs,
  create_notification_jobs,
}

-- Every destination has a job with the key of the notice.
abbrev AllTaken : Settings → ℕ → Notice → List Destination → List NotificationJob → Type 0
AllTaken c now n [] js = Unit
AllTaken c now n (d ∷ ds) js = (is_taken (new_job c now n d) js ≡ true) × AllTaken c now n ds js

-- A job of a notice with an incident has its own key.
same_key_self :
    (c : Settings) (now : ℕ) (n : Notice) (d : Destination) (i : String)
    → n.incident_id ≡ some i
    → same_key (new_job c now n d) (new_job c now n d) ≡ true
unfolding same_key
same_key_self c now n d i e = ground (
  arith,
  eq_iff n.tenant_id n.tenant_id,
  eq_iff i i,
  eq_iff d.url d.url,
  eq_iff n.dedupe_key n.dedupe_key,
)

-- Adding a job keeps the keys of the table, and leaves its own there.
added-keeps :
    (i j : NotificationJob) (w : World)
    → is_taken i w.jobs ≡ true
    → is_taken i (added j w).jobs ≡ true
unfolding is_taken
added-keeps i j w e = ground arith

added-has :
    (j : NotificationJob) (w : World) → same_key j j ≡ true → is_taken j (added j w).jobs ≡ true
unfolding is_taken
added-has j w e = ground arith

add_jobs-keeps :
    (c : Settings) (now : ℕ) (n : Notice) (ds : List Destination) (w : World) (i : NotificationJob)
    → is_taken i w.jobs ≡ true
    → is_taken i (add_jobs c now n ds w).0.jobs ≡ true
unfolding add_jobs
add_jobs-keeps c now n [] w i e = e
add_jobs-keeps c now n (d ∷ ds) w i e =
    add_jobs-keeps c now n ds (added (new_job c now n d) w) i
      (added-keeps i (new_job c now n d) w e)

add_jobs-AllTaken :
    (c : Settings) (now : ℕ) (n : Notice) (ds : List Destination) (w : World) (i : String)
    → n.incident_id ≡ some i
    → AllTaken c now n ds (add_jobs c now n ds w).0.jobs
unfolding add_jobs
add_jobs-AllTaken c now n [] w i e = tt
add_jobs-AllTaken c now n (d ∷ ds) w i e = (
  add_jobs-keeps c now n ds (added (new_job c now n d) w) (new_job c now n d)
      (added-has (new_job c now n d) w (same_key_self c now n d i e)),
  add_jobs-AllTaken c now n ds (added (new_job c now n d) w) i e,
)

-- The destinations with other ids drawn for them.
abbrev pub redrawn : (String → String) → List Destination → List Destination
redrawn f [] = []
redrawn f (d ∷ ds) = record d { job_id = f d.job_id } ∷ redrawn f ds

-- The key of a job is its window's, whenever it is made and whatever its id.
is_taken-window :
    (c : Settings) (now later : ℕ) (n : Notice) (d : Destination) (f : String → String)
    (js : List NotificationJob)
    → dedupe_window_start now c.notify_dedupe_window_s
      ≡ dedupe_window_start later c.notify_dedupe_window_s
    → is_taken (new_job c now n d) js
      ≡ is_taken (new_job c later n (record d { job_id = f d.job_id })) js
unfolding is_taken same_key
is_taken-window c now later n d f [] e = refl
is_taken-window c now later n d f (j ∷ js) e =
    ground (arith, is_taken-window c now later n d f js e)

add_jobs-none :
    (c : Settings) (now later : ℕ) (n : Notice) (ds : List Destination) (f : String → String)
    (w : World)
    → dedupe_window_start now c.notify_dedupe_window_s
      ≡ dedupe_window_start later c.notify_dedupe_window_s
    → AllTaken c now n ds w.jobs
    → add_jobs c later n (redrawn f ds) w ≡ (w, [])
unfolding add_jobs
add_jobs-none c now later n [] f w e t = refl
add_jobs-none c now later n (d ∷ ds) f w e t = ground (
  arith,
  is_taken-window c now later n d f w.jobs e,
  t.0,
  add_jobs-none c now later n ds f w e t.1,
)

announced-jobs :
    (up : Bool) (k : String) (w : World)
    → (announced (enqueue_notification_job up k 0 w).1 k (enqueue_notification_job up k 0 w).0).jobs
      ≡ w.jobs
unfolding enqueue_notification_job
announced-jobs true k w = refl
announced-jobs false k w = refl

enqueue_jobs-jobs :
    (up : String → Bool) (ks : List String) (w : World) → (enqueue_jobs up ks w).jobs ≡ w.jobs
unfolding enqueue_jobs
enqueue_jobs-jobs up [] w = refl
enqueue_jobs-jobs up (k ∷ ks) w = enqueue_jobs-jobs up ks _ ∙ announced-jobs (up k) k w

-- A notification about an incident that is sent again within its window, with new ids drawn for the
-- jobs, adds nothing: no job, no message and no audit record.
pub create_once :
    (c : Settings) (now later : ℕ) (up up' : String → Bool) (n : Notice) (ds : List Destination)
    (f : String → String) (w : World) (i : String)
    → n.incident_id ≡ some i
    → dedupe_window_start now c.notify_dedupe_window_s
      ≡ dedupe_window_start later c.notify_dedupe_window_s
    → create_notification_jobs c later up' n
        (redrawn f ds)
        (create_notification_jobs c now up n ds w).0
      ≡ ((create_notification_jobs c now up n ds w).0, [])
unfolding create_notification_jobs enqueue_jobs
create_once c now later up up' n ds f w i e same =
    ap (λ r. (enqueue_jobs up' r.1 r.0, r.1))
      (add_jobs-none c now later n ds f
        (enqueue_jobs up (add_jobs c now n ds w).1 (add_jobs c now n ds w).0) same
        (subst (AllTaken c now n ds)
          (sym (enqueue_jobs-jobs up (add_jobs c now n ds w).1 (add_jobs c now n ds w).0))
          (add_jobs-AllTaken c now n ds w i e)))
