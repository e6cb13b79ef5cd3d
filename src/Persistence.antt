-- ===== src/Persistence.antt =====
-- server/internal/persistence: what is kept when a match ends, and the tokens to return to one.
pub mod Writer
pub mod Tokens
