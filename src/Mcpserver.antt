-- ===== src/Mcpserver.antt =====
-- internal/mcpserver: the tools that a Claude session of one card has.
pub mod Results
pub mod References
pub mod Actions
pub mod Tools
