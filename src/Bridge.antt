-- ===== src/Bridge.antt =====
-- bridge/src: the sessions of a machine, those of other machines, and the handlers of the hub.
pub mod Map
pub mod Model
pub mod State
pub mod Federation
pub mod Hub
pub mod Rows
