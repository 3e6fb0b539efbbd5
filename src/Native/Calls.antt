-- ===== src/Native/Calls.antt =====
-- The kinds of calls that the bridge makes, by what they do to the ledger, and their rules.
mod Defs
mod Rules
mod Replies
unfoldable pub use Defs.*
pub use Rules.*
unfoldable pub use Replies.*
