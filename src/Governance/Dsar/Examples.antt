-- ===== src/Governance/Dsar/Examples.antt =====
-- Requests of a tenant whose one document is under a hold.
use nexus_rag.Prelude.{◌≡◌, ◌⊎◌, refl, String, true, false, none, some, [], ◌∷◌}
use nexus_rag.Prelude.Tables.{any, elem, filter, ids_of, find, delete_in}
use nexus_rag.Authz.Operators.{Host}
use nexus_rag.Governance.{
  LegalHold, is_in_force, insert_newest, newest_first, list_active_legal_holds, hold_matches_scope,
  first_matching, find_applicable_legal_hold,
}
use nexus_rag.Governance.PolicyEngine.Decide.{evaluate_policy}
use nexus_rag.Governance.Retention.{RetentionPolicy}
use nexus_rag.Governance.Retention.Rows.{Document, Db}
use nexus_rag.Governance.Dsar.{
  violates_key, deleted_documents, document_ids_of, SubjectType, document, tenant, apply_tenant,
  apply_dsar_destructive_action,
}
use nexus_rag.Governance.Dsar.Submit.{
  running, RequestType, delete, anonymize, pending, rejected, DsarRequest, artifact, Setting,
  submit_dsar_request, enforce_policy, after_policy, run_destructive, deletes,
}
use nexus_rag.Governance.Dsar.Isolation.{SameDocument, SameSession, apply_dsar-isolated}
use nexus_rag.Governance.Dsar.Gate.{
  Untouched, Aborted, is_clear, violates, Executed, submit_dsar-Executed,
}

abbrev host : Host
host = record {
  shown = λ v. "?";
  iso_time = λ s. none;
  strptime_hms = λ s. none;
  strptime_hm = λ s. none;
  iso_datetime = λ s. none;
}

abbrev retention : RetentionPolicy
retention = record {
  messages_ttl_days = none;
  checkpoints_ttl_days = none;
  audit_ttl_days = none;
  documents_ttl_days = none;
  backups_ttl_days = none;
  hard_delete_enabled = true;
  anonymize_instead_of_delete = false;
}

abbrev hold : LegalHold
hold = record {
  id = "1";
  tenant_id = "t1";
  scope_type = "document";
  scope_id = some "d1";
  created_at = 10;
  expires_at = none;
  is_active = true;
}

abbrev setting : Setting
setting = record {
  host = host;
  upper = λ s. s;
  governance_policy_engine_enabled = false;
  rules = [];
  unavailable = none;
  holds = hold ∷ [];
  retention = retention;
  now = 1000;
  actor_role = some "admin";
  exported = artifact "blob";
}

abbrev doc : String → String → Document
doc i t = record {
  id = i;
  tenant_id = t;
  filename = "f";
  content_type = "text/plain";
  storage_path = some "p";
  metadata_json = [];
  created_at = 100;
}

abbrev db : Db
db = record {
  sessions = record { id = "s1"; tenant_id = "t1" } ∷ record { id = "s2"; tenant_id = "t2" } ∷ [];
  messages = record { id = "m1"; session_id = "s1"; content = "hello"; created_at = 100 } ∷ [];
  checkpoints = [];
  documents = doc "d1" "t1" ∷ doc "d2" "t2" ∷ [];
  chunks = record { id = "k1"; document_id = "d1"; text = "x" } ∷ [];
  loose_chunks = [];
  referenced_documents = [];
  audit_events = [];
  backup_dirs = [];
  backup_jobs = [];
  corpora = record { id = "co"; tenant_id = "t1" } ∷ [];
  api_keys = record { id = "ak"; tenant_id = "t1"; name = some "key" } ∷ [];
}

abbrev request : RequestType → SubjectType → String → DsarRequest
request r s i = record {
  tenant_id = "t1";
  request_type = r;
  subject_type = s;
  subject_id = i;
  status = pending;
  error_code = none;
  artifact_uri = none;
  report = none;
}

-- The document that is under the hold cannot be deleted by itself.
held_alone :
    (submit_dsar_request setting (request delete document "d1") db).request.status ≡ rejected
unfolding submit_dsar_request evaluate_policy enforce_policy after_policy find_applicable_legal_hold
    first_matching list_active_legal_holds is_in_force newest_first insert_newest hold_matches_scope
    filter
held_alone = refl

-- It goes with the tenant's data.
held_with_all :
    (submit_dsar_request setting (request delete tenant "t1") db).db.documents ≡ doc "d2" "t2" ∷ []
unfolding submit_dsar_request evaluate_policy enforce_policy after_policy find_applicable_legal_hold
    first_matching list_active_legal_holds is_in_force newest_first insert_newest hold_matches_scope
    filter run_destructive deletes apply_dsar_destructive_action apply_tenant delete_in elem
    violates_key deleted_documents document_ids_of ids_of any
held_with_all = refl

-- An anonymization of all of the tenant's data leaves the text of the chunks.
chunks_stay : (submit_dsar_request setting (request anonymize tenant "t1") db).db.chunks ≡ db.chunks
unfolding submit_dsar_request evaluate_policy enforce_policy after_policy find_applicable_legal_hold
    first_matching list_active_legal_holds is_in_force newest_first insert_newest hold_matches_scope
    filter run_destructive deletes apply_dsar_destructive_action apply_tenant violates_key
chunks_stay = refl

apply_dsar-isolated_example :
    SameDocument "d2" (doc "d2" "t2") db (apply_dsar_destructive_action "t1" tenant "t1" true db).0
    × SameSession "s2"
        (record { id = "s2"; tenant_id = "t2" })
        db
        (apply_dsar_destructive_action "t1" tenant "t1" true db).0
unfolding elem ids_of find
apply_dsar-isolated_example =
    apply_dsar-isolated "t1" tenant "t1" true db "d2" (doc "d2" "t2") "s2"
      (record { id = "s2"; tenant_id = "t2" }) (refl, (refl, tt)) (refl, (refl, tt)) refl refl refl
      refl

-- A permission that an upload grants keeps the document from being deleted, and the call raises.
abbrev owned : Db
owned = record db { referenced_documents = "d1" ∷ [] }

owner_blocks : submit_dsar_request setting (request delete tenant "t1") owned ≡ record {
  request = record (request delete tenant "t1") { status = running };
  db = owned;
  raised = true;
}
unfolding submit_dsar_request evaluate_policy enforce_policy after_policy find_applicable_legal_hold
    first_matching list_active_legal_holds is_in_force newest_first insert_newest hold_matches_scope
    filter run_destructive deletes violates_key deleted_documents document_ids_of ids_of any elem
owner_blocks = refl

submit_dsar-Executed_example :
    let q = request delete document "d1" in
    ((is_clear setting q ≡ false) × Untouched q db (submit_dsar_request setting q db))
    ⊎ ((is_clear setting q ≡ true)
        × (violates setting q db ≡ true)
        × Aborted q db (submit_dsar_request setting q db))
    ⊎ ((is_clear setting q ≡ true)
        × (violates setting q db ≡ false)
        × Executed setting q db (submit_dsar_request setting q db))
submit_dsar-Executed_example = submit_dsar-Executed setting (request delete document "d1") db
