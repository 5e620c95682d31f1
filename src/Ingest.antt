-- ===== src/Ingest.antt =====
-- The parts of backend/app/ingest that are modelled.
pub mod Chunker
pub mod Tables
pub mod Sections
pub mod Jobs
pub mod Process
pub mod Reconcile
