-- ===== src/Governance/Examples.antt =====
-- A retention run under holds.
use nexus_rag.Prelude.{◌≡◌, refl, String, str_eq, true, false, Option, none, some, List, [], ◌∷◌}
use nexus_rag.Prelude.Tables.{elem, filter, any, ids_of, find, delete_in, update_in, count_in}
use nexus_rag.Governance.{
  LegalHold, is_in_force, insert_newest, newest_first, list_active_legal_holds, hold_matches_scope,
  first_matching, find_applicable_legal_hold, enforce_no_legal_hold,
}
use nexus_rag.Governance.Retention.{
  RetentionPolicy, is_hard_delete, sweep, eligible_ids, is_older, held_ids, tenant_hold,
}
use nexus_rag.Governance.Retention.Backups.{sweep_backups, manifest_expired, manifest_held}
use nexus_rag.Governance.Retention.Rows.{Message, Checkpoint, Document, Chunk, Db}
use nexus_rag.Governance.Retention.Run.{
  run_retention_for_tenant, run_categories, documents_violate, no_report, process_messages,
  process_checkpoints, process_documents, process_audit, process_backups, skip_hold_event,
  sweep_chunks, tenant_session_ids,
}
use nexus_rag.Governance.Retention.Held.{is_unnamed}
use nexus_rag.Governance.Retention.Kept.{held_document-kept}

abbrev policy : RetentionPolicy
policy = record {
  messages_ttl_days = some 1;
  checkpoints_ttl_days = some 1;
  audit_ttl_days = some 1;
  documents_ttl_days = some 1;
  backups_ttl_days = some 1;
  hard_delete_enabled = true;
  anonymize_instead_of_delete = false;
}

abbrev hold : String → Option String → LegalHold
hold scope i = record {
  id = "1";
  tenant_id = "t1";
  scope_type = scope;
  scope_id = i;
  created_at = 10;
  expires_at = none;
  is_active = true;
}

abbrev document : String → Document
document i = record {
  id = i;
  tenant_id = "t1";
  filename = "f";
  content_type = "text/plain";
  storage_path = some "p";
  metadata_json = [];
  created_at = 100;
}

abbrev message : String → String → Message
message i s = record { id = i; session_id = s; content = "hello"; created_at = 100 }

abbrev db : Db
db = record {
  sessions = record { id = "s1"; tenant_id = "t1" } ∷ record { id = "s2"; tenant_id = "t1" } ∷ [];
  messages = message "m1" "s1" ∷ message "m2" "s2" ∷ [];
  checkpoints = record { id = "c1"; session_id = "s1"; state_json = []; created_at = 100 } ∷ [];
  documents = document "d1" ∷ document "d2" ∷ [];
  chunks = record { id = "k1"; document_id = "d1"; text = "x" } ∷ [];
  loose_chunks = [];
  referenced_documents = [];
  audit_events =
      record {
        id = "a1";
        tenant_id = some "t1";
        occurred_at = 100;
        ip_address = none;
        user_agent = none;
        metadata_json = [];
      }
      ∷ [];
  backup_dirs =
      record {
        manifest_uri = "b/manifest.json";
        manifest = some (record { backup_id = "7"; created_at = 100; job_id = some 7 });
      }
      ∷ [];
  backup_jobs = record { id = 7; status = "completed"; completed_at = some 101 } ∷ [];
  corpora = record { id = "co"; tenant_id = "t1" } ∷ [];
  api_keys = record { id = "ak"; tenant_id = "t1"; name = some "key" } ∷ [];
}

abbrev holds : List LegalHold
holds = hold "document" (some "d1") ∷ hold "session" (some "s1") ∷ []

abbrev documents_after : List LegalHold → List String
documents_after hs =
    ids_of (λ (d : Document). d.id) (run_retention_for_tenant "t1" 1000000 policy hs db).0.documents

held : documents_after holds ≡ "d1" ∷ []
unfolding run_retention_for_tenant run_categories documents_violate process_messages
    process_checkpoints process_documents process_audit process_backups sweep_backups
    manifest_expired manifest_held skip_hold_event sweep sweep_chunks eligible_ids is_older held_ids
    tenant_hold is_hard_delete tenant_session_ids delete_in update_in count_in elem ids_of filter
    any list_active_legal_holds is_in_force newest_first insert_newest
held = refl

-- A hold on documents that names none forbids the deletion of each, and the run deletes them all.
unnamed_forbids :
    enforce_no_legal_hold "t1" 1000000 "document" (some "d1") (hold "document" none ∷ []) ≡ false
unfolding enforce_no_legal_hold find_applicable_legal_hold list_active_legal_holds is_in_force
    filter newest_first insert_newest first_matching hold_matches_scope
unnamed_forbids = refl

unnamed_ignored : documents_after (hold "document" none ∷ []) ≡ []
unfolding run_retention_for_tenant run_categories documents_violate process_messages
    process_checkpoints process_documents process_audit process_backups sweep_backups
    manifest_expired manifest_held skip_hold_event sweep sweep_chunks eligible_ids is_older held_ids
    tenant_hold is_hard_delete tenant_session_ids delete_in update_in count_in elem ids_of filter
    any list_active_legal_holds is_in_force newest_first insert_newest
unnamed_ignored = refl

-- A permission on the document that is due makes the run fail, and nothing changes.
abbrev owned : Db
owned = record db { referenced_documents = "d1" ∷ [] }

owner_stops : run_retention_for_tenant "t1" 1000000 policy [] owned ≡ (owned, no_report, [])
unfolding run_retention_for_tenant documents_violate eligible_ids list_active_legal_holds filter
    newest_first ids_of any elem is_hard_delete tenant_hold is_older held_ids
owner_stops = refl

held_document-kept_example :
    (find
        (λ (y : Document). y.id)
        "d1"
        (run_retention_for_tenant "t1" 1000000 policy holds db).0.documents
      ≡ some (document "d1"))
    × (filter
          (λ (c : Chunk). str_eq "d1" c.document_id)
          (run_retention_for_tenant "t1" 1000000 policy holds db).0.chunks
        ≡ filter (λ (c : Chunk). str_eq "d1" c.document_id) db.chunks)
unfolding elem ids_of find enforce_no_legal_hold find_applicable_legal_hold list_active_legal_holds
    is_in_force filter newest_first insert_newest first_matching hold_matches_scope any is_unnamed
held_document-kept_example =
    held_document-kept "t1" 1000000 policy holds db "d1" (document "d1") (refl, (refl, tt)) refl
      refl refl

abbrev checkpoint : Checkpoint
checkpoint = record { id = "c1"; session_id = "s1"; state_json = []; created_at = 100 }
