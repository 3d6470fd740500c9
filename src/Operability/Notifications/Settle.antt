-- ===== src/Operability/Notifications/Settle.antt =====
-- What a claimed job comes to, and how often it is delivered at most.
use mathlib.Core.Path.{subst}
use nexus_rag.Prelude.{
  ℕ, ◌+◌, ◌≤◌, ◌<◌, ◌≡◌, refl, sym, ap, ◌∙◌, max, String, Bool, true, false, Option, none, some,
  ◌∷◌, arith, leb, Option-cases, Bool-cases, ◌||◌, inl, inr,
}
use nexus_rag.Operability.Notifications.{
  Status, retrying, delivering, delivered, dlq, NotificationJob, NotificationDeadLetter, claimed,
  World, Settings, find_job, store_job, enqueue_notification_job,
}
use nexus_rag.Operability.Notifications.Backoff.{retry_backoff-bounds}
use nexus_rag.Operability.Notifications.Store.{find_job-id, find-store}
use nexus_rag.Operability.Notifications.Delivery.{
  DeliveryError, Call, is_claimable, is_expired, claim_notification_job, expire, settle_delivered,
  settle_dead, settle_retry, attempt_delivery, process_notification_job, audit, stored,
  is_non_retriable, note_signature, dead_reason, error_text,
}

-- How a job that had `j` as its row before stands after an attempt.
abbrev pub Settled :
    Settings → Call → NotificationJob → World → World → NotificationJob → Status → Type 0
Settled c o j w w' j' delivered =
    (o.raises ≡ none)
    × (j'.attempt_count ≡ j.attempt_count + 1)
    × (w'.dead_letters ≡ w.dead_letters)
Settled c o j w w' j' retrying =
    (j'.attempt_count ≡ j.attempt_count + 1)
    × (j'.attempt_count < max 1 c.notify_max_attempts)
    × (o.finished_at + max 1 c.notify_backoff_ms ≤ j'.next_attempt_at)
    × (w'.dead_letters ≡ w.dead_letters)
Settled c o j w w' j' dlq =
    (d : NotificationDeadLetter) × (w'.dead_letters ≡ d ∷ w.dead_letters) × (d.job_id ≡ j.id)
Settled c o j w w' j' _ = ⊥

-- A call ends so: it answers with the job, and the job is so in the table.
abbrev pub Ends :
    Settings → Call → String → World → NotificationJob → World × Option NotificationJob → Type 0
Ends c o k w j r =
    (j' : NotificationJob) × (r.1 ≡ some j')
    × (find_job k r.0.jobs ≡ some j')
    × Settled c o j w r.0 j' j'.status

-- The attempt's row is written back, and stands as above.
abbrev pub Settles : Settings → Call → NotificationJob → World → World × NotificationJob → Type 0
Settles c o j w r =
    Settled c o j w r.0 r.1 r.1.status × (r.0.jobs ≡ store_job r.1 w.jobs) × (r.1.id ≡ j.id)

note-jobs : (o : Call) (j : NotificationJob) (w : World) → (note_signature o j w).jobs ≡ w.jobs
note-jobs o j w = ground arith

note-letters :
    (o : Call) (j : NotificationJob) (w : World)
    → (note_signature o j w).dead_letters ≡ w.dead_letters
note-letters o j w = ground arith

expire-Settles :
    (c : Settings) (o : Call) (j : NotificationJob) (w : World) → Settles c o j w (expire o j w)
unfolding expire
expire-Settles c o j w = (
  (
    record {
      job_id = j.id;
      reason = "expired";
      last_error = some "Notification exceeded max age before delivery";
    },
    refl,
    refl,
  ),
  refl,
  refl,
)

delivered-Settles :
    (c : Settings) (o : Call) (j : NotificationJob) (w : World)
    → o.raises ≡ none
    → Settles c o j w (settle_delivered o j w)
unfolding settle_delivered
delivered-Settles c o j w e = ((e, refl, note-letters o j _), note-jobs o j _, refl)

dead-Settles :
    (c : Settings) (o : Call) (j : NotificationJob) (e : DeliveryError) (w : World)
    → Settles c o j w (settle_dead o j e w)
unfolding settle_dead
dead-Settles c o j e w = (
  (
    record { job_id = j.id; reason = dead_reason e; last_error = some (error_text e) },
    note-letters o j _,
    refl,
  ),
  note-jobs o j _,
  refl,
)

-- The job as its claim leaves it, and the state.
abbrev pub taken : Call → NotificationJob → NotificationJob
taken o j = record j { status = delivering; updated_at = o.claimed_at }

abbrev pub claimed_world : Call → NotificationJob → World → World
claimed_world o j w = audit (claimed j.id) (stored (taken o j) w)

module _ (digest : String → ℕ → ℕ) where
  retry-Settles :
      (c : Settings) (o : Call) (j : NotificationJob) (e : DeliveryError) (w : World)
      → j.attempt_count + 1 < max 1 c.notify_max_attempts
      → Settles c o j w (settle_retry digest c o j e w)
  unfolding settle_retry enqueue_notification_job
  retry-Settles c o j e w l = (
    (
      refl,
      l,
      omega (arith, (retry_backoff-bounds digest c j.id (j.attempt_count + 1)).0),
      ground arith,
    ),
    ground arith,
    refl,
  )

  abbrev gives_up : Settings → NotificationJob → DeliveryError → Bool
  gives_up c j e = is_non_retriable e || leb (max 1 c.notify_max_attempts) (j.attempt_count + 1)

  expired :
      (c : Settings) (o : Call) (j : NotificationJob) (w : World)
      → is_expired c o j ≡ true
      → expire o j w ≡ attempt_delivery digest c o j w
  unfolding attempt_delivery
  expired c o j w old = ground arith

  sent :
      (c : Settings) (o : Call) (j : NotificationJob) (w : World)
      → is_expired c o j ≡ false
      → o.raises ≡ none
      → settle_delivered o j w ≡ attempt_delivery digest c o j w
  unfolding attempt_delivery
  sent c o j w young fine = ground arith

  dead :
      (c : Settings) (o : Call) (j : NotificationJob) (e : DeliveryError) (w : World)
      → is_expired c o j ≡ false
      → o.raises ≡ some e
      → gives_up c j e ≡ true
      → settle_dead o j e w ≡ attempt_delivery digest c o j w
  unfolding attempt_delivery
  dead c o j e w young up ends = ground arith

  again :
      (c : Settings) (o : Call) (j : NotificationJob) (e : DeliveryError) (w : World)
      → is_expired c o j ≡ false
      → o.raises ≡ some e
      → gives_up c j e ≡ false
      → settle_retry digest c o j e w ≡ attempt_delivery digest c o j w
  unfolding attempt_delivery
  again c o j e w young up on = ground arith

  pub attempt-Settles :
      (c : Settings) (o : Call) (j : NotificationJob) (w : World)
      → Settles c o j w (attempt_delivery digest c o j w)
  attempt-Settles c o j w = elim (Bool-cases (is_expired c o j)) [
    | inl old ↦ subst (Settles c o j w) (expired c o j w old) (expire-Settles c o j w)
    | inr young ↦ elim (Option-cases o.raises) [
      | inl fine ↦
          subst (Settles c o j w) (sent c o j w young fine) (delivered-Settles c o j w fine)
      | inr (e, up) ↦ elim (Bool-cases (gives_up c j e)) [
        | inl ends ↦ subst (Settles c o j w) (dead c o j e w young up ends) (dead-Settles c o j e w)
        | inr on ↦
            subst (Settles c o j w) (again c o j e w young up on)
              (retry-Settles c o j e w (ground arith))
      ]
    ]
  ]

  abbrev pub run : Settings → Call → NotificationJob → World → World × NotificationJob
  run c o j w = attempt_delivery digest c o (taken o j) (claimed_world o j w)

  pub process-run :
      (c : Settings) (o : Call) (k : String) (w : World) (j : NotificationJob)
      → o.paused ≡ false
      → find_job k w.jobs ≡ some j
      → is_claimable o.claimed_at j ≡ true
      → ((run c o j w).0, some (run c o j w).1) ≡ process_notification_job digest c o k w
  unfolding process_notification_job claim_notification_job
  process-run c o k w j live found ready = ground arith

  -- A job that a worker may claim, while delivery is not paused, is claimed, and its call ends with
  -- the row written back in one of three ways: delivered, with nothing raised and one attempt more;
  -- waiting for its next attempt, with one attempt more, attempts left, and a delay of at least the
  -- base; or dead, with a dead letter for it.
  pub process-Settled :
      (c : Settings) (o : Call) (k : String) (w : World) (j : NotificationJob)
      → o.paused ≡ false
      → find_job k w.jobs ≡ some j
      → is_claimable o.claimed_at j ≡ true
      → Ends c o k w j (process_notification_job digest c o k w)
  process-Settled c o k w j live found ready =
      subst (Ends c o k w j) (process-run c o k w j live found ready) (
        (run c o j w).1,
        refl,
        ap (find_job k) settles.1
            ∙ find-store k (store_job (taken o j) w.jobs) (taken o j) (run c o j w).1
                (find-store k w.jobs j (taken o j) found (sym (find_job-id k w.jobs j found)))
                (settles.2 ∙ sym (find_job-id k w.jobs j found)),
        settles.0,
      )
    where
      settles : Settles c o (taken o j) (claimed_world o j w) (run c o j w)
      settles = attempt-Settles c o (taken o j) (claimed_world o j w)
