-- ===== src/Setup.antt =====
-- internal/setup/setup.go: the dialogues of init and login.
pub mod Prompts
pub mod Accounts
pub mod Init
pub mod Frames
pub mod Doctor
