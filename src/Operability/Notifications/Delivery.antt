-- ===== src/Operability/Notifications/Delivery.antt =====
-- `_claim_notification_job` and `process_notification_job`.
use nexus_rag.Prelude.{
  ℕ, ◌+◌, ◌-◌, ◌*◌, max, String, Bool, true, false, ◌&&◌, ◌||◌, Option, none, some, ◌∷◌, ltb, leb,
  if◌then◌else◌,
}
use nexus_rag.Operability.Notifications.{
  retrying, delivering, delivered, dlq, NotificationJob, NotificationAttempt, AttemptOutcome,
  success, failure, Audit, claimed, delivered_, dead_lettered, retry_scheduled, signature_missing,
  World, Settings, is_ready, find_job, store_job, enqueue_notification_job,
}
use nexus_rag.Operability.Notifications.Backoff.{retry_backoff_ms}

-- What `_deliver` raises: an HTTP status with a text, or another exception.
pub data DeliveryError : Type 0 where
  http_status : ℕ → String → DeliveryError
  other : String → DeliveryError

-- What a call meets: whether delivery is paused, the times at which the job is claimed, the attempt
-- starts and it ends, the secret of the destination, what the delivery raises, and whether the
-- queue takes a message.
pub record Call : Type 0 where
  pub paused : Bool
  pub claimed_at : ℕ
  pub started_at : ℕ
  pub finished_at : ℕ
  pub signing_secret : Option String
  pub raises : Option DeliveryError
  pub queue_up : Bool

-- `str(exc)`
abbrev pub error_text : DeliveryError → String
error_text (http_status s t) = t
error_text (other t) = t

-- `_is_non_retriable_delivery_error`, its Boolean; the reason is the next function.
abbrev pub is_non_retriable : DeliveryError → Bool
is_non_retriable (http_status s t) = leb 400 s && ltb s 500
is_non_retriable (other t) = false

-- `reason if non_retriable else "max_attempts_exceeded"`
abbrev pub dead_reason : DeliveryError → String
dead_reason e = if is_non_retriable e then "receiver_rejected" else "max_attempts_exceeded"

-- `_dead_letter_job`
abbrev pub dead_letter : NotificationJob → String → String → World → World
dead_letter j reason error w = record w {
  dead_letters =
      record { job_id = j.id; reason = reason; last_error = some error } ∷ w.dead_letters;
}

abbrev pub audit : Audit → World → World
audit a w = record w { audits = a ∷ w.audits }

-- The row is written back.
abbrev pub stored : NotificationJob → World → World
stored j w = record w { jobs = store_job j w.jobs }

-- The `where` clauses of the claim.
abbrev pub is_claimable : ℕ → NotificationJob → Bool
is_claimable now j = is_ready j.status && leb j.next_attempt_at now

-- `_claim_notification_job`
unfoldable pub claim_notification_job : ℕ → String → World → World × Option NotificationJob
claim_notification_job now k w = elim (find_job k w.jobs) [
  | none ↦ (w, none)
  | some j ↦
      if is_claimable now j
      then (let j' = record j { status = delivering; updated_at = now } in (stored j' w, some j'))
      else (w, none)
]

abbrev pub is_missing : Option String → Bool
is_missing none = true
is_missing (some s) = false

-- The record of an attempt without a signature, where there is no secret.
abbrev pub note_signature : Call → NotificationJob → World → World
note_signature o j w = if is_missing o.signing_secret then audit (signature_missing j.id) w else w

-- `(now - job.created_at).total_seconds() > max_age_seconds`
abbrev pub is_expired : Settings → Call → NotificationJob → Bool
is_expired c o j = ltb (max 1 c.notify_max_age_seconds * 1000) (o.started_at - j.created_at)

-- A job that is too old when it is claimed.
unfoldable pub expire : Call → NotificationJob → World → World × NotificationJob
expire o j w =
    let j' = record j {
      status = dlq;
      next_attempt_at = o.started_at;
      last_error = some "expired";
      updated_at = o.started_at;
    } in
    (
      audit (dead_lettered j.id)
          (stored j' (dead_letter j "expired" "Notification exceeded max age before delivery" w)),
      j',
    )

-- The row of the attempt as it ends.
abbrev pub attempt_row :
    Call → NotificationJob → AttemptOutcome → Option String → NotificationAttempt
attempt_row o j outcome error = record {
  job_id = j.id;
  attempt_no = j.attempt_count + 1;
  started_at = o.started_at;
  finished_at = some o.finished_at;
  outcome = outcome;
  error = error;
}

abbrev pub with_attempt : NotificationAttempt → World → World
with_attempt a w = record w { attempts = a ∷ w.attempts }

-- The delivery succeeded.
unfoldable pub settle_delivered : Call → NotificationJob → World → World × NotificationJob
settle_delivered o j w =
    let j' = record j {
      attempt_count = j.attempt_count + 1;
      last_error = none;
      status = delivered;
      next_attempt_at = o.finished_at;
      updated_at = o.finished_at;
    } in
    (
      note_signature o j
          (audit (delivered_ j.id) (stored j' (with_attempt (attempt_row o j success none) w))),
      j',
    )

-- The job as a failed attempt leaves it, apart from its status and its next time.
abbrev pub failed_job : Call → NotificationJob → DeliveryError → NotificationJob
failed_job o j e = record j {
  attempt_count = j.attempt_count + 1;
  last_error = some (error_text e);
  updated_at = o.finished_at;
}

-- The delivery failed for good. Both the branch and the code after it record the dead letter.
unfoldable pub settle_dead :
    Call → NotificationJob → DeliveryError → World → World × NotificationJob
settle_dead o j e w =
    let j' = record (failed_job o j e) { status = dlq; next_attempt_at = o.finished_at } in
    let w' = stored j' (
      dead_letter j (dead_reason e) (error_text e)
        (with_attempt (attempt_row o j failure (some (error_text e))) w)) in
    (audit (dead_lettered j.id) (note_signature o j (audit (dead_lettered j.id) w')), j')

module _ (digest : String → ℕ → ℕ) where
  -- The delivery failed and is tried again after a delay.
  unfoldable pub settle_retry :
      Settings → Call → NotificationJob → DeliveryError → World → World × NotificationJob
  settle_retry c o j e w =
      let delay = retry_backoff_ms digest c j.id (j.attempt_count + 1) in
      let j' = record (failed_job o j e) {
        status = retrying;
        next_attempt_at = o.finished_at + delay;
      } in
      let w' = stored j' (with_attempt (attempt_row o j failure (some (error_text e))) w) in
      (
        note_signature o j
            (audit (retry_scheduled j.id) (enqueue_notification_job o.queue_up j.id delay w').0),
        j',
      )

  -- What follows the claim.
  unfoldable pub attempt_delivery :
      Settings → Call → NotificationJob → World → World × NotificationJob
  attempt_delivery c o j w = if is_expired c o j then expire o j w else elim o.raises [
    | none ↦ settle_delivered o j w
    | some e ↦
        if is_non_retriable e || leb (max 1 c.notify_max_attempts) (j.attempt_count + 1)
        then settle_dead o j e w
        else settle_retry c o j e w
  ]

  -- `process_notification_job`
  unfoldable pub process_notification_job :
      Settings → Call → String → World → World × Option NotificationJob
  process_notification_job c o k w =
      if o.paused
      then (w, none)
      else (let (w', r) = claim_notification_job o.claimed_at k w in
          elim r [
            | none ↦ (w', none)
            | some j ↦
                let (w'', j') = attempt_delivery c o j (audit (claimed j.id) w') in (w'', some j')
          ])
