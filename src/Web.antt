-- ===== src/Web.antt =====
-- The fetch of pages from the web, backend/app/web.
pub mod Security
