-- ===== src/Governance/Dsar.antt =====
-- Data subject requests of nexusrag/services/governance.py: what a destructive request does to the
-- tables (`_apply_dsar_destructive_action`).
pub mod Submit
pub mod Isolation
pub mod Erasure
pub mod Gate
mod Examples
use nexus_rag.Prelude.{
  ℕ, ◌+◌, String, str_eq, Bool, true, false, not, ◌&&◌, Option, none, some, List, [], ◌∷◌,
  if◌then◌else◌,
}
use nexus_rag.Prelude.Tables.{any, elem, filter, ids_of, find, delete_in, update_in, count_in}
use nexus_rag.Governance.Retention.Rows.{
  Session, Message, Checkpoint, Document, Chunk, Corpus, ApiKey, Db,
}
use nexus_rag.Governance.Retention.Run.{anonymized_json}

pub data SubjectType : Type 0 where
  api_key session document tenant : SubjectType

pub record Counts : Type 0 where
  pub deleted : ℕ
  pub anonymized : ℕ

abbrev pub zero_counts : Counts
zero_counts = record { deleted = 0; anonymized = 0 }

abbrev pub hide_message : Message → Message
hide_message m = record m { content = "[ANONYMIZED]" }

abbrev pub hide_checkpoint : Checkpoint → Checkpoint
hide_checkpoint c = record c { state_json = anonymized_json }

abbrev pub hide_chunk : Chunk → Chunk
hide_chunk c = record c { text = "[ANONYMIZED]" }

abbrev pub hide_document : Document → Document
hide_document d = record d {
  filename = "[ANONYMIZED]";
  storage_path = none;
  metadata_json = anonymized_json;
}

abbrev pub hide_key : ApiKey → ApiKey
hide_key k = record k { name = some "[ANONYMIZED]" }

-- One API key; the flag is the mode "delete".
unfoldable pub apply_api_key : String → String → Bool → Db → Db × Counts
apply_api_key tenant_id i delete d = elim (find (λ (k : ApiKey). k.id) i d.api_keys) [
  | none ↦ (d, zero_counts)
  | some k ↦
      if not (str_eq k.tenant_id tenant_id)
      then (d, zero_counts)
      else if delete
      then (
        record d { api_keys = delete_in (λ (x : ApiKey). x.id) (k.id ∷ []) d.api_keys },
        record zero_counts { deleted = 1 },
      )
      else (
        record d { api_keys = update_in (λ (x : ApiKey). x.id) (k.id ∷ []) hide_key d.api_keys },
        record zero_counts { anonymized = 1 },
      )
]

-- One session with its messages and checkpoints.
unfoldable pub apply_session : String → String → Bool → Db → Db × Counts
apply_session tenant_id i delete d = elim (find (λ (s : Session). s.id) i d.sessions) [
  | none ↦ (d, zero_counts)
  | some s ↦
      if not (str_eq s.tenant_id tenant_id)
      then (d, zero_counts)
      else if delete
      then (
        record d {
          messages = delete_in (λ (m : Message). m.session_id) (s.id ∷ []) d.messages;
          checkpoints = delete_in (λ (c : Checkpoint). c.session_id) (s.id ∷ []) d.checkpoints;
          sessions = delete_in (λ (x : Session). x.id) (s.id ∷ []) d.sessions;
        },
        record zero_counts {
          deleted =
              count_in (λ (m : Message). m.session_id) (s.id ∷ []) d.messages
              + count_in (λ (c : Checkpoint). c.session_id) (s.id ∷ []) d.checkpoints
              + 1;
        },
      )
      else (
        record d {
          messages = update_in (λ (m : Message). m.session_id) (s.id ∷ []) hide_message d.messages;
          checkpoints =
              update_in (λ (c : Checkpoint). c.session_id) (s.id ∷ []) hide_checkpoint
                d.checkpoints;
        },
        record zero_counts {
          anonymized =
              count_in (λ (m : Message). m.session_id) (s.id ∷ []) d.messages
              + count_in (λ (c : Checkpoint). c.session_id) (s.id ∷ []) d.checkpoints;
        },
      )
]

-- One document with its chunks.
unfoldable pub apply_document : String → String → Bool → Db → Db × Counts
apply_document tenant_id i delete d = elim (find (λ (x : Document). x.id) i d.documents) [
  | none ↦ (d, zero_counts)
  | some x ↦
      if not (str_eq x.tenant_id tenant_id)
      then (d, zero_counts)
      else if delete
      then (
        record d {
          chunks = delete_in (λ (c : Chunk). c.document_id) (x.id ∷ []) d.chunks;
          documents = delete_in (λ (y : Document). y.id) (x.id ∷ []) d.documents;
        },
        record zero_counts {
          deleted = count_in (λ (c : Chunk). c.document_id) (x.id ∷ []) d.chunks + 1;
        },
      )
      else (
        record d {
          chunks = update_in (λ (c : Chunk). c.document_id) (x.id ∷ []) hide_chunk d.chunks;
          documents = update_in (λ (y : Document). y.id) (x.id ∷ []) hide_document d.documents;
        },
        record zero_counts { anonymized = 1 },
      )
]

unfoldable pub session_ids_of : String → List Session → List String
session_ids_of tenant_id ss =
    ids_of (λ (s : Session). s.id) (filter (λ s. str_eq s.tenant_id tenant_id) ss)

unfoldable pub document_ids_of : String → List Document → List String
document_ids_of tenant_id ds =
    ids_of (λ (x : Document). x.id) (filter (λ x. str_eq x.tenant_id tenant_id) ds)

-- All of a tenant's rows.
unfoldable pub apply_tenant : String → Bool → Db → Db × Counts
apply_tenant t true d =
    let document_ids = document_ids_of t d.documents in
    let session_ids = session_ids_of t d.sessions in
    (
      record d {
        chunks = delete_in (λ (c : Chunk). c.document_id) document_ids d.chunks;
        messages = delete_in (λ (m : Message). m.session_id) session_ids d.messages;
        checkpoints = delete_in (λ (c : Checkpoint). c.session_id) session_ids d.checkpoints;
        sessions = delete_in (λ (s : Session). s.tenant_id) (t ∷ []) d.sessions;
        documents = delete_in (λ (x : Document). x.tenant_id) (t ∷ []) d.documents;
        corpora = delete_in (λ (c : Corpus). c.tenant_id) (t ∷ []) d.corpora;
        api_keys = delete_in (λ (k : ApiKey). k.tenant_id) (t ∷ []) d.api_keys;
      },
      record zero_counts {
        deleted =
            count_in (λ (c : Chunk). c.document_id) document_ids d.chunks
            + (count_in (λ (m : Message). m.session_id) session_ids d.messages
                + count_in (λ (c : Checkpoint). c.session_id) session_ids d.checkpoints
                + count_in (λ (s : Session). s.tenant_id) (t ∷ []) d.sessions
                + count_in (λ (x : Document). x.tenant_id) (t ∷ []) d.documents
                + count_in (λ (c : Corpus). c.tenant_id) (t ∷ []) d.corpora
                + count_in (λ (k : ApiKey). k.tenant_id) (t ∷ []) d.api_keys);
      },
    )
apply_tenant t false d =
    let session_ids = session_ids_of t d.sessions in
    (
      record d {
        messages = update_in (λ (m : Message). m.session_id) session_ids hide_message d.messages;
        checkpoints =
            update_in (λ (c : Checkpoint). c.session_id) session_ids hide_checkpoint d.checkpoints;
        documents = update_in (λ (x : Document). x.tenant_id) (t ∷ []) hide_document d.documents;
        api_keys = update_in (λ (k : ApiKey). k.tenant_id) (t ∷ []) hide_key d.api_keys;
      },
      record zero_counts {
        anonymized =
            count_in (λ (m : Message). m.session_id) session_ids d.messages
            + count_in (λ (c : Checkpoint). c.session_id) session_ids d.checkpoints
            + count_in (λ (x : Document). x.tenant_id) (t ∷ []) d.documents
            + count_in (λ (k : ApiKey). k.tenant_id) (t ∷ []) d.api_keys;
      },
    )

-- Whether a row refers to one of the documents that the statement deletes: its foreign key forbids it.
abbrev pub is_referenced : List String → List String → Bool
is_referenced ids referenced = any (λ (i : String). elem i referenced) ids

abbrev pub document_of : String → Option Document → List String
document_of tenant_id none = []
document_of tenant_id (some x) = if str_eq x.tenant_id tenant_id then x.id ∷ [] else []

-- The documents that a deletion is of.
unfoldable pub deleted_documents : String → SubjectType → String → Db → List String
deleted_documents t document i d = document_of t (find (λ (x : Document). x.id) i d.documents)
deleted_documents t tenant i d = document_ids_of t d.documents
deleted_documents t _ i d = []

-- Whether `_apply_dsar_destructive_action` raises, by a foreign key.
unfoldable pub violates_key : String → SubjectType → String → Bool → Db → Bool
violates_key t s i delete d =
    delete && is_referenced (deleted_documents t s i d) d.referenced_documents

-- `_apply_dsar_destructive_action`, where it does not raise.
unfoldable pub apply_dsar_destructive_action :
    String → SubjectType → String → Bool → Db → Db × Counts
apply_dsar_destructive_action t api_key i delete d = apply_api_key t i delete d
apply_dsar_destructive_action t session i delete d = apply_session t i delete d
apply_dsar_destructive_action t document i delete d = apply_document t i delete d
apply_dsar_destructive_action t tenant i delete d = apply_tenant t delete d
