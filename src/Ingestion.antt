-- ===== src/Ingestion.antt =====
-- nexusrag/ingestion and nexusrag/services/ingest: how a text is cut into chunks.
pub mod Chunking
