-- ===== src/Bridge/Open.antt =====
-- `oc_open` and `oc_close` of bridge.c.
mod Close
mod Init
mod Steps
pub mod Owned
mod Ends
pub mod Correct
unfoldable pub use Close.*
unfoldable pub use Init.*
unfoldable pub use Steps.*
