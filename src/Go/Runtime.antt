-- ===== src/Go/Runtime.antt =====
-- runtime.go: opening a library, loading models, and the references that keep the library open.
mod Types
mod Errors
mod Config
mod Options
mod Load
mod Refs
mod Schedule
pub mod Owned
unfoldable pub use Types.*
unfoldable pub use Errors.*
unfoldable pub use Config.*
unfoldable pub use Options.*
unfoldable pub use Load.*
unfoldable pub use Refs.*
unfoldable pub use Schedule.*
