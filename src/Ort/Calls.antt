-- ===== src/Ort/Calls.antt =====
-- The calls through `r->api`, with the ownership that the header documents.
mod Status
mod Env
mod Options
mod Provider
mod Session
mod TypeInfo
mod Value
mod Heap
mod Loader
unfoldable pub use Status.*
unfoldable pub use Env.*
unfoldable pub use Options.*
unfoldable pub use Provider.*
unfoldable pub use Session.*
unfoldable pub use TypeInfo.*
unfoldable pub use Value.*
unfoldable pub use Heap.*
unfoldable pub use Loader.*
