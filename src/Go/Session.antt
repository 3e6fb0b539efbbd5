-- ===== src/Go/Session.antt =====
-- session.go: running a model, and the watcher of a call's context.
pub mod Operand
pub mod Disjoint
pub mod Apart
mod Watch
pub mod Context
mod Describe
mod Outputs
mod Run
pub mod Checked
pub mod Watched
pub mod Ran
unfoldable pub use Operand.*
unfoldable pub use Watch.*
unfoldable pub use Context.*
unfoldable pub use Describe.*
unfoldable pub use Outputs.*
unfoldable pub use Run.*
