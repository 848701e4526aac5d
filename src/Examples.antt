-- ===== src/Examples.antt =====
-- The theorems on concrete inputs.
mod Data
mod Cards
mod Turns
mod Questions
mod Claude
mod Settings
mod Workers
mod Tools
mod Apis
mod Sessions
mod Setups
mod Commands
