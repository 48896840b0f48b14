-- ===== src/Tests.antt =====
-- Small stores and calls on which the theorems are applied.
pub mod Data
mod Stores
pub mod Searches
mod Imports
mod Backfills
mod Loops
mod Updates
mod Limits
mod Exports
mod Onboarding
mod Modes
mod Maps
mod Upgrades
mod Settings
mod Statistics
