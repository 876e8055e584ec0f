-- ===== src/Proto.antt =====
-- firmware/src/proto.rs: the data model, and parts of the scanner of the `/state` payload.
pub mod Model
pub mod Same
pub mod Reflexive
pub mod Text
pub mod Scan
pub mod Provider
pub mod State
pub mod Show
