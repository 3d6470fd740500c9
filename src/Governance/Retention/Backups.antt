-- ===== src/Governance/Retention/Backups.antt =====
-- The expired backups of nexusrag/services/governance.py: the loop of `_process_backups`.
use nexus_rag.Prelude.{
  ℕ, ◌+◌, String, Bool, false, not, ◌&&◌, ◌||◌, Option, none, some, List, [], ◌∷◌, ◌==◌,
  if◌then◌else◌,
}
use nexus_rag.Prelude.Tables.{elem}
use nexus_rag.Governance.{LegalHold}
use nexus_rag.Governance.Retention.{held_ids, Category, nothing, is_older}
use nexus_rag.Governance.Retention.Rows.{BackupManifest, BackupDir, BackupJob}

module _ (now : ℕ) (holds : List LegalHold) where
  abbrev pub prune_job : Option ℕ → List BackupJob → List BackupJob
  prune_job job_id [] = []
  prune_job job_id (j ∷ js) =
      elim job_id [
        | none ↦ j
        | some i ↦ if j.id == i then record j { status = "pruned"; completed_at = some now } else j
      ]
      ∷ prune_job job_id js

  unfoldable pub manifest_expired : ℕ → Option BackupManifest → Bool
  manifest_expired ttl none = false
  manifest_expired ttl (some m) = is_older now ttl m.created_at

  unfoldable pub manifest_held : String → Option BackupManifest → Bool
  manifest_held uri none = false
  manifest_held uri (some m) =
      elem m.backup_id (held_ids "backup_set" holds) || elem uri (held_ids "backup_set" holds)

  abbrev pub job_of : Option BackupManifest → Option ℕ
  job_of none = none
  job_of (some m) = m.job_id

  -- The loop of `_process_backups` over the manifests found: the directories left, the jobs,
  -- counts.
  unfoldable pub sweep_backups :
      ℕ → List BackupDir → List BackupJob → List BackupDir × List BackupJob × Category
  sweep_backups ttl [] jobs = ([], jobs, nothing)
  sweep_backups ttl (b ∷ bs) jobs =
      let expired = manifest_expired ttl b.manifest in
      let held = manifest_held b.manifest_uri b.manifest in
      let drops = expired && not held in
      let rest =
        sweep_backups ttl bs (if drops then prune_job (job_of b.manifest) jobs else jobs) in
      let c = rest.2 in
      (
        if drops then rest.0 else b ∷ rest.0,
        rest.1,
        record c {
          processed = c.processed + (if expired then 1 else 0);
          deleted = c.deleted + (if drops then 1 else 0);
          skipped_hold = c.skipped_hold + (if expired && held then 1 else 0);
        },
      )
