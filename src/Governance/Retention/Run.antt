-- ===== src/Governance/Retention/Run.antt =====
-- The tables of a retention run, its categories in the order they are processed, and the events of
-- skipped rows. The one failure that is modelled is the hard deletion of a document that a row of
-- `document_permissions` or `document_labels` refers to.
use nexus_rag.Prelude.{
  ℕ, String, str_eq, Bool, true, false, not, ◌&&◌, none, some, List, [], ◌∷◌, ◌++◌, leb,
  if◌then◌else◌,
}
use nexus_rag.Prelude.Tables.{any, elem, filter, ids_of, delete_in, update_in}
use nexus_rag.Governance.{LegalHold, list_active_legal_holds}
use nexus_rag.Governance.Retention.{
  RetentionPolicy, is_hard_delete, tenant_hold, held_ids, Category, nothing, is_older, eligible_ids,
  sweep,
}
use nexus_rag.Governance.Retention.Rows.{
  Session, Message, Checkpoint, Document, Chunk, AuditEvent, Db,
}
use nexus_rag.Governance.Retention.Backups.{sweep_backups}

abbrev pub anonymized_json : List (String × String)
anonymized_json = ("anonymized", "true") ∷ []

abbrev pub anonymize_document : Document → Document
anonymize_document d = record d {
  filename = "[ANONYMIZED]";
  content_type = "application/octet-stream";
  storage_path = none;
  metadata_json = anonymized_json;
}

abbrev pub document_due : String → ℕ → ℕ → Document → Bool
document_due tenant_id now ttl d = str_eq d.tenant_id tenant_id && is_older now ttl d.created_at

abbrev pub document_held : List LegalHold → Document → Bool
document_held holds d = elem d.id (held_ids "document" holds)

-- The chunks of the documents with the ids go, or lose their text.
unfoldable pub sweep_chunks : Bool → List String → List Chunk → List Chunk
sweep_chunks true ids cs = delete_in (λ (c : Chunk). c.document_id) ids cs
sweep_chunks false ids cs =
    update_in (λ (c : Chunk). c.document_id) ids (λ c. record c { text = "[ANONYMIZED]" }) cs

module _ (tenant_id : String) (now : ℕ) (p : RetentionPolicy) (holds : List LegalHold) where
  unfoldable pub tenant_session_ids : Db → List String
  tenant_session_ids d =
      ids_of (λ (s : Session). s.id) (filter (λ s. str_eq s.tenant_id tenant_id) d.sessions)

  -- `_process_messages`
  unfoldable pub process_messages : Db → Db × Category
  process_messages d = elim p.messages_ttl_days [
    | none ↦ (d, nothing)
    | some ttl ↦
        let r =
          sweep (λ (m : Message). m.id)
            (λ m. is_older now ttl m.created_at && elem m.session_id (tenant_session_ids d))
            (λ m. elem m.session_id (held_ids "session" holds))
            (λ m. record m { content = "[ANONYMIZED]" }) (tenant_hold holds) (is_hard_delete p)
            d.messages in
        (record d { messages = r.0 }, r.1)
  ]

  -- `_process_checkpoints`
  unfoldable pub process_checkpoints : Db → Db × Category
  process_checkpoints d = elim p.checkpoints_ttl_days [
    | none ↦ (d, nothing)
    | some ttl ↦
        let r =
          sweep (λ (c : Checkpoint). c.id)
            (λ c. is_older now ttl c.created_at && elem c.session_id (tenant_session_ids d))
            (λ c. elem c.session_id (held_ids "session" holds))
            (λ c. record c { state_json = anonymized_json }) (tenant_hold holds) (is_hard_delete p)
            d.checkpoints in
        (record d { checkpoints = r.0 }, r.1)
  ]

  -- `_process_documents`
  unfoldable pub process_documents : Db → Db × Category
  process_documents d = elim p.documents_ttl_days [
    | none ↦ (d, nothing)
    | some ttl ↦
        let ids =
          eligible_ids (λ (x : Document). x.id) (document_due tenant_id now ttl)
            (document_held holds) anonymize_document d.documents in
        let r =
          sweep (λ (x : Document). x.id) (document_due tenant_id now ttl) (document_held holds)
            anonymize_document (tenant_hold holds) (is_hard_delete p) d.documents in
        (
          record d {
            documents = r.0;
            chunks =
                if tenant_hold holds
                then d.chunks
                else sweep_chunks (is_hard_delete p) ids d.chunks;
          },
          r.1,
        )
  ]

  -- Whether the deletion of the documents raises, by a foreign key.
  unfoldable pub documents_violate : Db → Bool
  documents_violate d = elim p.documents_ttl_days [
    | none ↦ false
    | some ttl ↦
        is_hard_delete p
        && not (tenant_hold holds)
        && any (λ (i : String). elem i d.referenced_documents)
            (eligible_ids (λ (x : Document). x.id) (document_due tenant_id now ttl)
              (document_held holds) anonymize_document d.documents)
  ]

  -- `_process_audit`
  unfoldable pub process_audit : Db → Db × Category
  process_audit d = elim p.audit_ttl_days [
    | none ↦ (d, nothing)
    | some ttl ↦
        let r =
          sweep (λ (a : AuditEvent). a.id)
            (λ a.
              elim a.tenant_id [ none ↦ false | some t ↦ str_eq t tenant_id ]
              && is_older now ttl a.occurred_at)
            (λ a. false)
            (λ a. record a {
              ip_address = none;
              user_agent = none;
              metadata_json = anonymized_json;
            })
            (tenant_hold holds) (is_hard_delete p) d.audit_events in
        (record d { audit_events = r.0 }, r.1)
  ]

  -- `_process_backups`
  unfoldable pub process_backups : Db → Db × Category
  process_backups d = elim p.backups_ttl_days [
    | none ↦ (d, nothing)
    | some ttl ↦
        let r = sweep_backups now holds ttl d.backup_dirs d.backup_jobs in
        if tenant_hold holds
        then (d, nothing)
        else (record d { backup_dirs = r.0; backup_jobs = r.1 }, r.2)
  ]

-- The report, and whether the run is completed; a run that fails stores none.
pub record Report : Type 0 where
  pub completed : Bool
  pub messages : Category
  pub checkpoints : Category
  pub documents : Category
  pub audit : Category
  pub backups : Category

-- `_emit_skip_hold_event`
unfoldable pub skip_hold_event : String → Category → List (String × ℕ)
skip_hold_event category c = if leb c.skipped_hold 0 then [] else (category, c.skipped_hold) ∷ []

-- The body of the run: the tables after it, its report and the events of skipped rows.
unfoldable pub run_categories :
    String → ℕ → RetentionPolicy → List LegalHold → Db → Db × Report × List (String × ℕ)
run_categories tenant_id now p all_holds d =
    let holds = list_active_legal_holds tenant_id now all_holds in
    let messages = process_messages tenant_id now p holds d in
    let checkpoints = process_checkpoints tenant_id now p holds messages.0 in
    let documents = process_documents tenant_id now p holds checkpoints.0 in
    let audit = process_audit tenant_id now p holds documents.0 in
    let backups = process_backups tenant_id now p holds audit.0 in
    (
      backups.0,
      record {
        completed = true;
        messages = messages.1;
        checkpoints = checkpoints.1;
        documents = documents.1;
        audit = audit.1;
        backups = backups.1;
      },
      skip_hold_event "messages" messages.1
          ++ skip_hold_event "checkpoints" checkpoints.1
          ++ skip_hold_event "documents" documents.1
          ++ skip_hold_event "audit" audit.1
          ++ skip_hold_event "backups" backups.1,
    )

abbrev pub no_report : Report
no_report = record {
  completed = false;
  messages = nothing;
  checkpoints = nothing;
  documents = nothing;
  audit = nothing;
  backups = nothing;
}

-- `run_retention_for_tenant`. The deletion that violates a foreign key aborts the transaction, so the
-- handler's commit raises as well, and the tables are as they were before the run.
unfoldable pub run_retention_for_tenant :
    String → ℕ → RetentionPolicy → List LegalHold → Db → Db × Report × List (String × ℕ)
run_retention_for_tenant tenant_id now p all_holds d =
    if documents_violate tenant_id now p (list_active_legal_holds tenant_id now all_holds) d
    then (d, no_report, [])
    else run_categories tenant_id now p all_holds d
