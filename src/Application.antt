-- ===== src/Application.antt =====
-- server/cmd/gameserver: the program that joins sessions, lobby and rooms.
pub mod Deferred
