-- ===== src/Bridge/Run.antt =====
-- `run`, `oc_run`, `oc_run_into` and `oc_outputs_free` of bridge.c. The arrays of tensors belong to
-- the caller: `outputs` is `none` where NULL is passed, and what is written to it is part of the
-- answer. The array `values` is a list, that of `local` or of the block that `calloc` answers.
mod Release
mod Body
mod Defs
pub mod Owned
pub mod Create
pub mod Answer
pub mod Collect
pub mod Finish
pub mod Arrays
pub mod Values
pub mod Correct
unfoldable pub use Release.*
unfoldable pub use Body.*
unfoldable pub use Defs.*
