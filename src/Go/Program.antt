-- ===== src/Go/Program.antt =====
-- What a program does with the package, call after call: models are loaded, sessions run, and sessions
-- and the runtime are closed. The pool of descriptors is one for all sessions.
mod Defs
mod Runs
pub mod Owned
unfoldable pub use Defs.*
