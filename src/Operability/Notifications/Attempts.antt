-- ===== src/Operability/Notifications/Attempts.antt =====
-- How often a job is delivered, over any sequence of calls.
use mathlib.Core.Path.{subst}
use nexus_rag.Prelude.{
  ℕ, ◌+◌, ◌-◌, ◌≤◌, ◌<◌, ◌≡◌, ◌⊎◌, refl, sym, ap, max, String, true, false, Option, none, some,
  List, [], ◌∷◌, arith, if◌then◌else◌, Option-cases, Bool-cases, inl, inr,
}
use nexus_rag.Operability.Notifications.{
  Status, queued, retrying, delivering, delivered, dlq, NotificationJob, World, Settings, is_ready,
  find_job,
}
use nexus_rag.Operability.Notifications.Delivery.{
  Call, is_claimable, claim_notification_job, process_notification_job,
}
use nexus_rag.Operability.Notifications.Settle.{Settled, process-Settled}

-- The attempts that a row has left.
abbrev pub left_for : Settings → NotificationJob → ℕ
left_for c j = if is_ready j.status then max 1 c.notify_max_attempts - j.attempt_count else 0

abbrev pub left_of : Settings → Option NotificationJob → ℕ
left_of c none = 0
left_of c (some j) = left_for c j

-- A row that is ready has attempts left.
abbrev pub IsSound : Settings → Option NotificationJob → Type 0
IsSound c none = Unit
IsSound c (some j) = is_ready j.status ≡ true → j.attempt_count < max 1 c.notify_max_attempts

abbrev pub one_if_some : Option NotificationJob → ℕ
one_if_some none = 0
one_if_some (some j) = 1

-- A call that leaves the row sound and, where it claims the job, uses an attempt up.
abbrev Steps : Settings → String → Option NotificationJob → World × Option NotificationJob → Type 0
Steps c k before r =
    IsSound c (find_job k r.0.jobs)
    × (one_if_some r.1 + left_of c (find_job k r.0.jobs) ≤ left_of c before)

pub claimable-ready :
    (now : ℕ) (j : NotificationJob) → is_claimable now j ≡ true → is_ready j.status ≡ true
claimable-ready now j e = ground arith

module _ (digest : String → ℕ → ℕ) where
  -- The calls among those given, one after the other on one job, that claim it.
  unfoldable pub claims : Settings → List Call → String → World → ℕ
  claims c [] k w = 0
  claims c (o ∷ os) k w =
      let (w', r) = process_notification_job digest c o k w in one_if_some r + claims c os k w'

  -- The state after the calls.
  unfoldable pub after : Settings → List Call → String → World → World
  after c [] k w = w
  after c (o ∷ os) k w = after c os k (process_notification_job digest c o k w).0

  pub unclaimed :
      (c : Settings) (o : Call) (k : String) (w : World)
      → (process_notification_job digest c o k w ≡ (w, none))
        ⊎ ((j : NotificationJob) × (o.paused ≡ false)
            × (find_job k w.jobs ≡ some j)
            × (is_claimable o.claimed_at j ≡ true))
  unfolding process_notification_job claim_notification_job
  unclaimed c o k w = elim (Bool-cases o.paused) [
    | inl off ↦ inl (ground arith)
    | inr on ↦ elim (Option-cases (find_job k w.jobs)) [
      | inl missing ↦ inl (ground arith)
      | inr (j, found) ↦ elim (Bool-cases (is_claimable o.claimed_at j)) [
        | inl ready ↦ inr (j, on, found, ready)
        | inr busy ↦ inl (ground arith)
      ]
    ]
  ]

  -- A row that settles in a status is sound, and has fewer attempts left.
  Settled-left :
      (c : Settings) (o : Call) (j j' : NotificationJob) (w w' : World) (s : Status)
      → is_ready j.status ≡ true
      → j.attempt_count < max 1 c.notify_max_attempts
      → j'.status ≡ s
      → Settled c o j w w' j' s
      → (is_ready j'.status ≡ true → j'.attempt_count < max 1 c.notify_max_attempts)
        × (1 + left_for c j' ≤ left_for c j)
  Settled-left c o j j' w w' delivered ready room e h = (λ again. ground arith, ground arith)
  Settled-left c o j j' w w' retrying ready room e h = (λ again. h.1, ground (arith, h.0, h.1))
  Settled-left c o j j' w w' dlq ready room e h = (λ again. ground arith, ground arith)
  Settled-left c o j j' w w' queued ready room e h = absurd h
  Settled-left c o j j' w w' delivering ready room e h = absurd h

  step-IsSound :
      (c : Settings) (o : Call) (k : String) (w : World)
      → IsSound c (find_job k w.jobs)
      → Steps c k (find_job k w.jobs) (process_notification_job digest c o k w)
  step-IsSound c o k w sound = elim (unclaimed c o k w) [
    | inl same ↦ subst (Steps c k (find_job k w.jobs)) (sym same) (sound, omega arith)
    | inr (j, on, found, ready) ↦
        let (j', answer, there, settled) = process-Settled digest c o k w j on found ready in
        let room = (subst (IsSound c) found sound) (claimable-ready o.claimed_at j ready) in
        let (sound', fewer) =
          Settled-left c o j j' w (process_notification_job digest c o k w).0 j'.status
            (claimable-ready o.claimed_at j ready) room refl settled in
        (
          subst (IsSound c) (sym there) sound',
          omega (arith, fewer, ap one_if_some answer, ap (left_of c) there, ap (left_of c) found),
        )
  ]

  -- However many calls process a job, whatever they meet and whenever they come, no more of them
  -- claim it than it has attempts left, so a new job is delivered at most `max(1,
  -- notify_max_attempts)` times.
  pub claims-left :
      (c : Settings) (os : List Call) (k : String) (w : World)
      → IsSound c (find_job k w.jobs)
      → claims c os k w + left_of c (find_job k (after c os k w).jobs)
        ≤ left_of c (find_job k w.jobs)
  unfolding claims after
  claims-left c [] k w sound = omega arith
  claims-left c (o ∷ os) k w sound = omega (
    arith,
    (step-IsSound c o k w sound).1,
    claims-left c os k (process_notification_job digest c o k w).0 (step-IsSound c o k w sound).0,
  )
