-- ===== src/Native.antt =====
-- The native side of the bridge: what C code and ONNX Runtime own, and the C functions' monad.
pub mod Ledger
pub mod Machine
pub mod Rules
pub mod Calls
pub mod Flow
