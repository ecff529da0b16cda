-- ===== src/Examples.antt =====
-- The theorems at concrete inputs, and runs of the definitions.
pub mod Worlds
pub mod Downloads
pub mod Schedules
pub mod Limits
pub mod Tasks
pub mod Passwords
pub mod Retries
pub mod Runs
pub mod Processing
pub mod Moves
pub mod Intake
pub mod Upgrades
