-- ===== src/Governance/Dsar/Erasure.antt =====
-- What a deletion at a data subject's request erases, and what it reports.
use nexus_rag.Prelude.{
  ℕ, ◌+◌, ◌≡◌, inl, inr, String, str_eq, true, [], ◌∷◌, arith, Bool-cases, Option-cases, length,
}
use nexus_rag.Prelude.Tables.{find, IsKey}
use nexus_rag.Prelude.Tables.Keys.{length-delete, count-one}
use nexus_rag.Governance.Retention.Rows.{
  Session, Message, Checkpoint, Document, Chunk, Corpus, ApiKey, Db,
}
use nexus_rag.Governance.Dsar.{
  SubjectType, api_key, session, document, tenant, session_ids_of, document_ids_of, apply_api_key,
  apply_session, apply_document, apply_tenant, apply_dsar_destructive_action,
}

-- The rows that a request can delete.
abbrev pub rows : Db → ℕ
rows d =
    length d.sessions
    + length d.messages
    + length d.checkpoints
    + length d.documents
    + length d.chunks
    + length d.corpora
    + length d.api_keys

-- The count of a deletion is the number of rows that are gone, whatever its subject. The ids of the
-- sessions, documents and API keys are primary keys.
pub apply_dsar-count :
    (t : String) (s : SubjectType) (i : String) (d : Db)
    → IsKey (λ (y : Session). y.id) d.sessions
    → IsKey (λ (y : Document). y.id) d.documents
    → IsKey (λ (y : ApiKey). y.id) d.api_keys
    → rows d
      ≡ rows (apply_dsar_destructive_action t s i true d).0
        + (apply_dsar_destructive_action t s i true d).1.deleted
unfolding apply_dsar_destructive_action apply_api_key apply_session apply_document apply_tenant
apply_dsar-count t api_key i d u v w =
    elim (Option-cases (find (λ (y : ApiKey). y.id) i d.api_keys)) [
      | inl n ↦ rw (apply_api_key, n) (omega arith)
      | inr f ↦ elim (Bool-cases (str_eq f.0.tenant_id t)) [
        | inr n ↦ rw (apply_api_key, f.1, n) (omega arith)
        | inl q ↦
            rw (apply_api_key, f.1, q)
              (omega (
                arith,
                count-one (λ (y : ApiKey). y.id) i d.api_keys f.0 w f.1,
                length-delete (λ (y : ApiKey). y.id) (f.0.id ∷ []) d.api_keys,
              ))
      ]
    ]
apply_dsar-count t session i d u v w =
    elim (Option-cases (find (λ (y : Session). y.id) i d.sessions)) [
      | inl n ↦ rw (apply_session, n) (omega arith)
      | inr f ↦ elim (Bool-cases (str_eq f.0.tenant_id t)) [
        | inr n ↦ rw (apply_session, f.1, n) (omega arith)
        | inl q ↦
            rw (apply_session, f.1, q)
              (omega (
                arith,
                count-one (λ (y : Session). y.id) i d.sessions f.0 u f.1,
                length-delete (λ (y : Session). y.id) (f.0.id ∷ []) d.sessions,
                length-delete (λ (y : Message). y.session_id) (f.0.id ∷ []) d.messages,
                length-delete (λ (y : Checkpoint). y.session_id) (f.0.id ∷ []) d.checkpoints,
              ))
      ]
    ]
apply_dsar-count t document i d u v w =
    elim (Option-cases (find (λ (y : Document). y.id) i d.documents)) [
      | inl n ↦ rw (apply_document, n) (omega arith)
      | inr f ↦ elim (Bool-cases (str_eq f.0.tenant_id t)) [
        | inr n ↦ rw (apply_document, f.1, n) (omega arith)
        | inl q ↦
            rw (apply_document, f.1, q)
              (omega (
                arith,
                count-one (λ (y : Document). y.id) i d.documents f.0 v f.1,
                length-delete (λ (y : Document). y.id) (f.0.id ∷ []) d.documents,
                length-delete (λ (y : Chunk). y.document_id) (f.0.id ∷ []) d.chunks,
              ))
      ]
    ]
apply_dsar-count t tenant i d u v w = omega (
  arith,
  length-delete (λ (y : Session). y.tenant_id) (t ∷ []) d.sessions,
  length-delete (λ (y : Message). y.session_id) (session_ids_of t d.sessions) d.messages,
  length-delete (λ (y : Checkpoint). y.session_id) (session_ids_of t d.sessions) d.checkpoints,
  length-delete (λ (y : Document). y.tenant_id) (t ∷ []) d.documents,
  length-delete (λ (y : Chunk). y.document_id) (document_ids_of t d.documents) d.chunks,
  length-delete (λ (y : Corpus). y.tenant_id) (t ∷ []) d.corpora,
  length-delete (λ (y : ApiKey). y.tenant_id) (t ∷ []) d.api_keys,
)
