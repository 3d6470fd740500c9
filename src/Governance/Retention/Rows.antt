-- ===== src/Governance/Retention/Rows.antt =====
-- The tables that nexusrag/services/governance.py reads and writes, and the directories of backups.
use nexus_rag.Prelude.{ℕ, String, Option, List}

pub record Session : Type 0 where
  pub id : String
  pub tenant_id : String

pub record Message : Type 0 where
  pub id : String
  pub session_id : String
  pub content : String
  pub created_at : ℕ

pub record Checkpoint : Type 0 where
  pub id : String
  pub session_id : String
  pub state_json : List (String × String)
  pub created_at : ℕ

pub record Document : Type 0 where
  pub id : String
  pub tenant_id : String
  pub filename : String
  pub content_type : String
  pub storage_path : Option String
  pub metadata_json : List (String × String)
  pub created_at : ℕ

-- The column `document_id` can be null: the chunks that have a document, and those of a corpus
-- alone, which no condition on the column selects.
pub record Chunk : Type 0 where
  pub id : String
  pub document_id : String
  pub text : String

pub record LooseChunk : Type 0 where
  pub id : String
  pub corpus_id : String
  pub text : String

pub record AuditEvent : Type 0 where
  pub id : String
  pub tenant_id : Option String
  pub occurred_at : ℕ
  pub ip_address : Option String
  pub user_agent : Option String
  pub metadata_json : List (String × String)

-- What a manifest file says; `job_id` is `int(backup_id)` where that is a number.
pub record BackupManifest : Type 0 where
  pub backup_id : String
  pub created_at : ℕ
  pub job_id : Option ℕ

-- A backup's directory by the path of its manifest, `none` for a manifest that cannot be read.
pub record BackupDir : Type 0 where
  pub manifest_uri : String
  pub manifest : Option BackupManifest

pub record BackupJob : Type 0 where
  pub id : ℕ
  pub status : String
  pub completed_at : Option ℕ

pub record Corpus : Type 0 where
  pub id : String
  pub tenant_id : String

pub record ApiKey : Type 0 where
  pub id : String
  pub tenant_id : String
  pub name : Option String

pub record Db : Type 0 where
  pub sessions : List Session
  pub messages : List Message
  pub checkpoints : List Checkpoint
  pub documents : List Document
  pub chunks : List Chunk
  pub loose_chunks : List LooseChunk
  -- the ids that a row of `document_permissions` or `document_labels` refers to
  pub referenced_documents : List String
  pub audit_events : List AuditEvent
  pub backup_dirs : List BackupDir
  pub backup_jobs : List BackupJob
  pub corpora : List Corpus
  pub api_keys : List ApiKey
