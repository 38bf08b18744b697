-- ===== src/Rag.antt =====
-- src/rag: retrieval, here the chunker of documents.
pub mod Chunker
mod Tests
