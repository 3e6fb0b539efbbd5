-- ===== src/Go/Tensor.antt =====
-- tensor.go.
mod Types
mod Size
mod Defs
pub mod Bounds
pub mod Typed
unfoldable pub use Types.*
unfoldable pub use Size.*
unfoldable pub use Defs.*
