-- ===== src/Bridge/Types.antt =====
-- The structs of bridge.h. A pointer is an address, `none` where it may be NULL; the address of a
-- struct that the bridge allocates is its field `self`.
use onnxcraft.Common.{ℕ, ℤ, String, List, Option}
use onnxcraft.Ort.Enums.{OnnxTensorElementDataType}

-- `api`, the table of functions, lies in the library, so it is given by the library's address.
pub record OcRuntime : Type 0 where
  pub self : ℕ
  pub library : Option ℕ
  pub api : Option ℕ
  pub env : Option ℕ
  pub memory : Option ℕ
  pub allocator : Option ℕ
  pub version : Option String

-- `dims` is what the block `shape` holds, `none` before it is written.
pub record OcPort : Type 0 where
  pub name : Option ℕ
  pub type : OnnxTensorElementDataType
  pub shape : Option ℕ
  pub dims : Option (List ℤ)
  pub rank : ℕ

-- `ports` and `names` are the blocks, `port_array` and `name_array` what they hold.
pub record OcSession : Type 0 where
  pub self : ℕ
  pub runtime : OcRuntime
  pub handle : Option ℕ
  pub inputs : ℕ
  pub outputs : ℕ
  pub ports : Option ℕ
  pub port_array : List OcPort
  pub names : Option ℕ
  pub name_array : List (Option ℕ)

pub record OcOptions : Type 0 where
  pub intra_threads : ℤ
  pub inter_threads : ℤ
  pub parallel : ℤ
  pub optimization : ℤ

pub record OcTensor : Type 0 where
  pub data_ptr : ℕ
  pub shape : ℕ
  pub bytes : ℕ
  pub rank : ℕ
  pub type : OnnxTensorElementDataType
  pub value : Option ℕ
