-- ===== src/Native/Flow.antt =====
-- The body of a C function with local variables and a `fail` label: a step goes on, or jumps to
-- the label with the status that the function will return. The locals keep what was written.
mod Defs
mod Rules
unfoldable pub use Defs.*
pub use Rules.*
