-- ===== src/Go/Runtime/Types.antt =====
-- The types of runtime.go and session.go. A map is the list of its entries in the order in which a
-- loop meets them, which Go leaves open.
use onnxcraft.Common.{ℕ, ℤ, Bool, String, List, Option}
use onnxcraft.Go.Tensor.{SizeError}
use onnxcraft.Bridge.Types.{OcRuntime, OcSession}

-- The errors, without the context that wraps them, and the panic of `unsafe.Slice`, at which the
-- deferred calls of `run` are made as at an error.
pub data GoError : Type 0 where
  closed : GoError
  native : (code : ℕ) → String → GoError
  open_failed : String → GoError
  invalid_path : GoError
  empty_model : GoError
  no_working_directory : String → GoError
  invalid_options : GoError
  incompatible_config : String → GoError
  invalid_config : GoError
  invalid_provider : GoError
  graph_capture : GoError
  invalid_provider_option : GoError
  unsupported_type : (name : String) → ℕ → GoError
  context_ended : String → GoError
  wrong_inputs : (wanted given : ℕ) → GoError
  wrong_outputs : (wanted given : ℕ) → GoError
  overlapping_output : ℕ → GoError
  invalid_tensor : ℕ → GoError
  output_size : SizeError → GoError
  inconsistent_output : ℕ → GoError
  slice_panic : GoError

pub record Runtime : Type 0 where
  pub native : Option OcRuntime
  pub refs : ℤ
  pub is_closed : Bool
  pub version : String

pub record Provider : Type 0 where
  pub name : String
  pub options : List (String × String)

pub record SessionOptions : Type 0 where
  pub intra_op_threads : ℤ
  pub inter_op_threads : ℤ
  pub parallel : Bool
  pub optimization : ℕ
  pub providers : List Provider
  pub config : List (String × String)

pub record TensorInfo : Type 0 where
  pub name : String
  pub dtype : ℕ
  pub shape : List ℤ

-- `gated` says whether there is a `gate`.
pub record Session : Type 0 where
  pub native : Option OcSession
  pub inputs : List TensorInfo
  pub outputs : List TensorInfo
  pub gated : Bool
