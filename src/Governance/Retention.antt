-- ===== src/Governance/Retention.antt =====
-- The retention run of nexusrag/services/governance.py: what `run_retention_for_tenant` deletes or
-- anonymizes in each category, and its report. Rows are read by their primary keys, rendered as
-- texts.
pub mod Rows
pub mod Backups
pub mod Run
pub mod Held
pub mod Kept
pub mod Report
use nexus_rag.Prelude.{
  ℕ, ◌+◌, ◌-◌, ◌*◌, String, str_eq, Bool, true, false, not, ◌&&◌, Option, none, some, List, [], ◌∷◌,
  ltb, if◌then◌else◌, length,
}
use nexus_rag.Prelude.Tables.{elem, filter, any, ids_of, delete_in, update_in, count_in}
use nexus_rag.Governance.{LegalHold}

pub record RetentionPolicy : Type 0 where
  pub messages_ttl_days : Option ℕ
  pub checkpoints_ttl_days : Option ℕ
  pub audit_ttl_days : Option ℕ
  pub documents_ttl_days : Option ℕ
  pub backups_ttl_days : Option ℕ
  pub hard_delete_enabled : Bool
  pub anonymize_instead_of_delete : Bool

-- `_retention_mode`: whether it is "hard_delete"; else it is "anonymize".
unfoldable pub is_hard_delete : RetentionPolicy → Bool
is_hard_delete p = p.hard_delete_enabled && not p.anonymize_instead_of_delete

-- The holds as a run reads them once: one of the whole tenant, or the ids of one scope.
unfoldable pub tenant_hold : List LegalHold → Bool
tenant_hold = any (λ h. str_eq h.scope_type "tenant")

unfoldable pub held_ids : String → List LegalHold → List String
held_ids scope [] = []
held_ids scope (h ∷ hs) =
    let rest = held_ids scope hs in
    if str_eq h.scope_type scope
    then elim h.scope_id [ none ↦ rest | some i ↦ if str_eq i "" then rest else i ∷ rest ]
    else rest

pub record Category : Type 0 where
  pub processed : ℕ
  pub deleted : ℕ
  pub anonymized : ℕ
  pub skipped_hold : ℕ

abbrev pub nothing : Category
nothing = record { processed = 0; deleted = 0; anonymized = 0; skipped_hold = 0 }

-- `created_at < now - timedelta(days=ttl_days)`
unfoldable pub is_older : ℕ → ℕ → ℕ → Bool
is_older now ttl_days created_at = ltb (created_at + ttl_days * 86400) now

-- The steps that `_process_messages`, `_process_checkpoints`, `_process_documents` and
-- `_process_audit` share: the rows that are due, those of them that no hold keeps, and the deletion
-- or the update of these.
module _ {ℓ} {A : Type ℓ} (id_of : A → String) (is_due is_held : A → Bool) (anonymize : A → A) where
  unfoldable pub eligible_ids : List A → List String
  eligible_ids xs = ids_of id_of (filter (λ x. is_due x && not (is_held x)) xs)

  unfoldable pub sweep : Bool → Bool → List A → List A × Category
  sweep hold hard xs =
      let processed = length (filter is_due xs) in
      let ids = eligible_ids xs in
      let skipped_hold = processed - length ids in
      if hold
      then (xs, record nothing { processed = processed; skipped_hold = processed })
      else if hard
      then (
        delete_in id_of ids xs,
        record {
          processed = processed;
          deleted = count_in id_of ids xs;
          anonymized = 0;
          skipped_hold = skipped_hold;
        },
      )
      else (
        update_in id_of ids anonymize xs,
        record {
          processed = processed;
          deleted = 0;
          anonymized = count_in id_of ids xs;
          skipped_hold = skipped_hold;
        },
      )
