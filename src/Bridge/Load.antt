-- ===== src/Bridge/Load.antt =====
-- `oc_load` of bridge.c.
mod Port
mod Model
mod Body
mod Defs
pub mod Answered
pub mod Round
pub mod Progress
pub mod Loop
pub mod Metadata
pub mod Opening
pub mod Correct
unfoldable pub use Port.*
unfoldable pub use Model.*
unfoldable pub use Body.*
unfoldable pub use Defs.*
