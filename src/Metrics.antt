-- ===== src/Metrics.antt =====
-- bridge/src/metrics.rs: today's tokens and costs.
pub mod Number
pub mod Price
pub mod Build
pub mod Claude
pub mod Codex
pub mod Stores
pub mod Summary
pub mod Titles
pub mod Sums
pub mod Balanced
pub mod Sorted
mod Examples
