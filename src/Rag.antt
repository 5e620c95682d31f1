-- ===== src/Rag.antt =====
-- The retrieval pipeline, backend/app/rag: one module for each file of that folder.
pub mod Records
pub mod Candidates
pub mod Dedup
pub mod Pool
pub mod Scope
pub mod Retriever
pub mod Reranker
pub mod Confidence
pub mod Gate
pub mod Context
pub mod Postprocess
mod Samples
