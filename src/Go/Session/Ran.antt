-- ===== src/Go/Session/Ran.antt =====
-- What `run` of session.go leaves behind.
pub mod Layout
pub mod Copied
pub mod During
pub mod Called
pub mod Watching
pub mod Result
