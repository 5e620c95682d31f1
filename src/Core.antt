-- ===== src/Core.antt =====
-- The parts of backend/app/core that are modelled.
pub mod Idempotency
pub mod Pagination
