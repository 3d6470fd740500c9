-- ===== src/Governance/Retention/Kept.antt =====
-- A retention run keeps what a legal hold protects.
use nexus_rag.Prelude.{
  ℕ, ◌≡◌, String, str_eq, false, some, List, ap, ◌∙◌, refl, inl, inr, Bool-cases,
}
use nexus_rag.Prelude.Tables.{filter, any, find, IsKey}
use nexus_rag.Governance.{LegalHold, list_active_legal_holds, enforce_no_legal_hold}
use nexus_rag.Governance.Retention.{RetentionPolicy}
use nexus_rag.Governance.Retention.Rows.{Message, Checkpoint, Document, Chunk, Db}
use nexus_rag.Governance.Retention.Run.{
  process_messages, process_checkpoints, process_documents, process_audit, run_categories,
  documents_violate, run_retention_for_tenant,
}
use nexus_rag.Governance.Retention.Held.{
  is_unnamed, enforced-held, process_messages-rest, process_checkpoints-rest,
  process_documents-rest, process_audit-rest, process_backups-rest, process_documents-held,
  process_messages-held, process_checkpoints-held,
}

held_document-run_categories :
    (tenant_id : String) (now : ℕ) (p : RetentionPolicy) (holds : List LegalHold) (d : Db)
    → (k : String) (x : Document) → IsKey (λ (y : Document). y.id) d.documents
    → find (λ (y : Document). y.id) k d.documents ≡ some x
    → enforce_no_legal_hold tenant_id now "document" (some k) holds ≡ false
    → any (is_unnamed "document") (list_active_legal_holds tenant_id now holds) ≡ false
    → (find (λ (y : Document). y.id) k (run_categories tenant_id now p holds d).0.documents
        ≡ some x)
      × (filter
            (λ (c : Chunk). str_eq k c.document_id)
            (run_categories tenant_id now p holds d).0.chunks
          ≡ filter (λ (c : Chunk). str_eq k c.document_id) d.chunks)
unfolding run_categories
held_document-run_categories tenant_id now p holds d k x u e f n =
    let hs = list_active_legal_holds tenant_id now holds in
    let d1 = (process_messages tenant_id now p hs d).0 in
    let d2 = (process_checkpoints tenant_id now p hs d1).0 in
    let d3 = (process_documents tenant_id now p hs d2).0 in
    let d4 = (process_audit tenant_id now p hs d3).0 in
    let m = process_messages-rest tenant_id now p hs d in
    let c = process_checkpoints-rest tenant_id now p hs d1 in
    let a = process_audit-rest tenant_id now p hs d3 in
    let b = process_backups-rest tenant_id now p hs d4 in
    let documents = c.1 ∙ m.2 in
    let kept =
      process_documents-held tenant_id now p hs d2 k x (rw documents u) (rw documents e)
        (enforced-held tenant_id now "document" k holds f n) in
    (
      ap (find _ k) (b.2 ∙ a.2) ∙ kept.0,
      ap (filter (λ (y : Chunk). str_eq k y.document_id)) (b.3 ∙ a.3)
          ∙ kept.1
          ∙ ap (filter (λ (y : Chunk). str_eq k y.document_id)) (c.2 ∙ m.3),
    )

-- Under a hold in force that forbids the deletion of a document, where each hold in force on
-- documents names its document, a retention run of the tenant leaves the document's row and its
-- chunks as they are, whatever the policy and the mode. The ids of the documents are a primary key.
pub held_document-kept :
    (tenant_id : String) (now : ℕ) (p : RetentionPolicy) (holds : List LegalHold) (d : Db)
    → (k : String) (x : Document) → IsKey (λ (y : Document). y.id) d.documents
    → find (λ (y : Document). y.id) k d.documents ≡ some x
    → enforce_no_legal_hold tenant_id now "document" (some k) holds ≡ false
    → any (is_unnamed "document") (list_active_legal_holds tenant_id now holds) ≡ false
    → (find
          (λ (y : Document). y.id)
          k
          (run_retention_for_tenant tenant_id now p holds d).0.documents
        ≡ some x)
      × (filter
            (λ (c : Chunk). str_eq k c.document_id)
            (run_retention_for_tenant tenant_id now p holds d).0.chunks
          ≡ filter (λ (c : Chunk). str_eq k c.document_id) d.chunks)
unfolding run_retention_for_tenant
held_document-kept tenant_id now p holds d k x u e f n =
    elim (Bool-cases
      (documents_violate tenant_id now p (list_active_legal_holds tenant_id now holds) d)) [
        | inl y ↦ rw y (e, refl)
        | inr o ↦ rw o (held_document-run_categories tenant_id now p holds d k x u e f n)
      ]

held_session-run_categories :
    (tenant_id : String) (now : ℕ) (p : RetentionPolicy) (holds : List LegalHold) (d : Db)
    → (s k : String) (x : Message) (l : String) (y : Checkpoint)
    → IsKey (λ (z : Message). z.id) d.messages
    → IsKey (λ (z : Checkpoint). z.id) d.checkpoints
    → find (λ (z : Message). z.id) k d.messages ≡ some x
    → x.session_id ≡ s
    → find (λ (z : Checkpoint). z.id) l d.checkpoints ≡ some y
    → y.session_id ≡ s
    → enforce_no_legal_hold tenant_id now "session" (some s) holds ≡ false
    → any (is_unnamed "session") (list_active_legal_holds tenant_id now holds) ≡ false
    → (find (λ (z : Message). z.id) k (run_categories tenant_id now p holds d).0.messages ≡ some x)
      × (find (λ (z : Checkpoint). z.id) l (run_categories tenant_id now p holds d).0.checkpoints
          ≡ some y)
unfolding run_categories
held_session-run_categories tenant_id now p holds d s k x l y u v e q i r f n =
    let hs = list_active_legal_holds tenant_id now holds in
    let d1 = (process_messages tenant_id now p hs d).0 in
    let d2 = (process_checkpoints tenant_id now p hs d1).0 in
    let d3 = (process_documents tenant_id now p hs d2).0 in
    let d4 = (process_audit tenant_id now p hs d3).0 in
    let m = process_messages-rest tenant_id now p hs d in
    let c = process_checkpoints-rest tenant_id now p hs d1 in
    let o = process_documents-rest tenant_id now p hs d2 in
    let a = process_audit-rest tenant_id now p hs d3 in
    let b = process_backups-rest tenant_id now p hs d4 in
    let held = enforced-held tenant_id now "session" s holds f n in
    (
      ap (find _ k) (b.0 ∙ a.0 ∙ o.0 ∙ c.0)
          ∙ process_messages-held tenant_id now p hs d s held k x u e q,
      ap (find _ l) (b.1 ∙ a.1 ∙ o.1)
          ∙ process_checkpoints-held tenant_id now p hs d1 s held l y (rw m.1 v) (rw m.1 i) r,
    )

-- Under a hold in force that forbids the deletion of a session, where each hold in force on
-- sessions names its session, a retention run of the tenant leaves every message and every
-- checkpoint of the session as it is, whatever the policy and the mode. The ids of both tables are
-- primary keys.
pub held_session-kept :
    (tenant_id : String) (now : ℕ) (p : RetentionPolicy) (holds : List LegalHold) (d : Db)
    → (s k : String) (x : Message) (l : String) (y : Checkpoint)
    → IsKey (λ (z : Message). z.id) d.messages
    → IsKey (λ (z : Checkpoint). z.id) d.checkpoints
    → find (λ (z : Message). z.id) k d.messages ≡ some x
    → x.session_id ≡ s
    → find (λ (z : Checkpoint). z.id) l d.checkpoints ≡ some y
    → y.session_id ≡ s
    → enforce_no_legal_hold tenant_id now "session" (some s) holds ≡ false
    → any (is_unnamed "session") (list_active_legal_holds tenant_id now holds) ≡ false
    → (find (λ (z : Message). z.id) k (run_retention_for_tenant tenant_id now p holds d).0.messages
        ≡ some x)
      × (find
            (λ (z : Checkpoint). z.id)
            l
            (run_retention_for_tenant tenant_id now p holds d).0.checkpoints
          ≡ some y)
unfolding run_retention_for_tenant
held_session-kept tenant_id now p holds d s k x l y u v e q i r f n =
    elim (Bool-cases
      (documents_violate tenant_id now p (list_active_legal_holds tenant_id now holds) d)) [
        | inl y ↦ rw y (e, i)
        | inr o ↦
            rw o (held_session-run_categories tenant_id now p holds d s k x l y u v e q i r f n)
      ]
