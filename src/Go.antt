-- ===== src/Go.antt =====
-- The Go package.
pub mod Result
pub mod Tensor
pub mod Cgo
pub mod Runtime
pub mod Session
pub mod Program
