-- ===== src/Bridge.antt =====
-- bridge.c and bridge.h.
pub mod Types
pub mod Wide
pub mod Open
pub mod Options
pub mod Provider
pub mod Session
pub mod Load
pub mod Run
pub mod Interface
pub mod Lifecycle
