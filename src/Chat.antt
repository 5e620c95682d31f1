-- ===== src/Chat.antt =====
-- The chat service, backend/app/chat.
pub mod Citations
