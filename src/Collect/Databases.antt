-- ===== src/Collect/Databases.antt =====
-- bridge/src/collector_opencode.rs and bridge/src/collector_hermes.rs.
pub mod Opencode
pub mod Hermes
