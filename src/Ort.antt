-- ===== src/Ort.antt =====
-- The part of the ONNX Runtime C API (internal/ort) that bridge.c calls: its enumerations, the
-- table of functions as a parameter, and each call with what it does to the ownership of handles.
pub mod Enums
pub mod Api
pub mod Calls
