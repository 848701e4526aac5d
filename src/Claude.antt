-- ===== src/Claude.antt =====
-- internal/claude: one headless Claude Code turn, its usage and its costs.
pub mod Prices
pub mod Usage
pub mod Stream
pub mod Run
pub mod Hook
