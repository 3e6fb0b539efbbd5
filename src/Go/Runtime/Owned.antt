-- ===== src/Go/Runtime/Owned.antt =====
-- The resources that the functions of runtime.go own, from what the bridge promises.
pub mod Errors
pub mod Options
pub mod Describe
pub mod Checked
pub mod Load
pub mod Refs
pub mod Sessions
pub mod Schedule
pub mod Open
