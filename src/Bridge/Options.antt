-- ===== src/Bridge/Options.antt =====
-- `oc_options_new`, `oc_config`, `oc_options_free`, and the functions on run options and statuses.
mod Body
mod Defs
pub mod Correct
unfoldable pub use Body.*
unfoldable pub use Defs.*
