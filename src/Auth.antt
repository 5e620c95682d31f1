-- ===== src/Auth.antt =====
-- The parts of backend/app/auth that are modelled.
pub mod Tokens
pub mod Login
pub mod RateLimit
