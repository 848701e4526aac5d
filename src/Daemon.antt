-- ===== src/Daemon.antt =====
-- internal/daemon: the daemon that turns mentions on cards into Claude turns.
pub mod Effects
pub mod Triggers
pub mod Approvals
pub mod Prompt
pub mod Turns
pub mod Scan
pub mod Messages
pub mod Watch
pub mod Logs
pub mod Worker
pub mod Fetch
