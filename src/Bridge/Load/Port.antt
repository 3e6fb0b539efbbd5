-- ===== src/Bridge/Load/Port.antt =====
-- One round of the loop of `oc_load` over the inputs and outputs. What a round writes is
-- `s->ports[i]`, `s->names[i]` and `info`; those are its variables.
use onnxcraft.Common.{ℕ, ◌-◌, ◌*◌, ◌/◌, ◌%◌, ◌^◌, Bool, true, false, Option, none, some, ltb, ◌==◌}
use onnxcraft.Native.Flow.{
  Flow, ◌>>=◌, ◌>>◌, go_on, check, plain, assign, fail_if, fail_with, arrived,
}
use onnxcraft.Ort.Enums.{OrtErrorCode, OnnxType}
use onnxcraft.Ort.Api.{OrtApi, Host}
use onnxcraft.Ort.Calls.{
  create_status, session_get_input_name, session_get_input_type_info, session_get_output_name,
  session_get_output_type_info, get_onnx_type_from_type_info, cast_type_info_to_tensor_info,
  get_tensor_element_type, get_dimensions_count, get_dimensions, tabulate, release_type_info,
  malloc,
}
use onnxcraft.Bridge.Types.{OcPort}

-- `SIZE_MAX` on a 64-bit target
abbrev pub size_max : ℕ
size_max = 2 ^ 64 - 1

pub record PortLocals : Type 0 where
  pub port : OcPort
  pub alias : Option ℕ
  pub info : Option ℕ

-- A block of memory with its size in bytes.
abbrev pub sized_block : (bytes : ℕ) → Option ℕ → Option (ℕ × ℕ)
sized_block bytes none = none
sized_block bytes (some p) = some (p, bytes)

-- `kind != ONNX_TYPE_TENSOR`
unfoldable pub not_tensor : OnnxType → Bool
not_tensor OnnxType.tensor = false
not_tensor _ = true

module _ {S : Type 0} (api : OrtApi S) (host : Host S) (a session allocator : ℕ) where
  -- The name and the type info of input or output `i`.
  unfoldable pub fetch_input : (i : ℕ) → Flow S PortLocals ℕ
  unfolding session_get_input_name session_get_input_type_info
  fetch_input i = do
    name ← check (session_get_input_name api a session i allocator)
    assign λ v. record v { port = record (v.port) { name = some name } }
    info ← check (session_get_input_type_info api a session i)
    assign λ v. record v { info = some info; alias = v.port.name }
    go_on info

  unfoldable pub fetch_output : (i : ℕ) → Flow S PortLocals ℕ
  unfolding session_get_output_name session_get_output_type_info
  fetch_output i = do
    name ← check (session_get_output_name api a session i allocator)
    assign λ v. record v { port = record (v.port) { name = some name } }
    info ← check (session_get_output_type_info api a session i)
    assign λ v. record v { info = some info; alias = v.port.name }
    go_on info

  unfoldable pub fetch : (inputs i : ℕ) → (is_input : Bool) → Flow S PortLocals ℕ
  fetch inputs i true = fetch_input i
  fetch inputs i false = fetch_output (i - inputs)

  -- `malloc(size)`, with the size of the block.
  unfoldable pub malloc_sized : (size : ℕ) → Flow S PortLocals (Option (ℕ × ℕ))
  unfolding malloc arrived
  malloc_sized size = do block ← plain (malloc host size); go_on (sized_block size block)

  -- `p->shape = malloc(...)`, not called where the size does not fit a `size_t`, in which the product
  -- is taken.
  unfoldable pub shape_block : (rank : ℕ) → (too_big : Bool) → Flow S PortLocals (Option (ℕ × ℕ))
  unfolding malloc_sized
  shape_block rank true = go_on none
  shape_block rank false = malloc_sized (rank * 8 % 2 ^ 64)

  unfoldable pub read_shape :
      (info : ℕ) → (tensor : Option ℕ) → (rank : ℕ) → Option (ℕ × ℕ) → Flow S PortLocals (Unit {0})
  unfolding create_status get_dimensions
  read_shape info tensor rank none =
      fail_with (create_status api a OrtErrorCode.fail "allocate tensor dimensions: out of memory")
  read_shape info tensor rank (some (block, bytes)) = do
    assign λ v. record v { port = record (v.port) { shape = some block } }
    dims ← check (get_dimensions api a info tensor bytes rank)
    assign λ v. record v { port = record (v.port) { dims = some (tabulate dims 0 rank) } }

  -- `if (p->rank) { ... }`
  unfoldable pub load_shape :
      (info : ℕ) → (tensor : Option ℕ) → (rank : ℕ) → (scalar : Bool) → Flow S PortLocals (Unit {0})
  load_shape info tensor rank true = go_on tt
  load_shape info tensor rank false = do
    block ← shape_block rank (ltb (size_max / 8) rank)
    read_shape info tensor rank block

  unfoldable pub finish_port : (info : ℕ) → Flow S PortLocals (Unit {0})
  unfolding release_type_info
  finish_port info = do plain (release_type_info api a info); assign λ v. record v { info = none }

  -- The round from the type info on. `p->rank` is a `size_t`.
  unfoldable pub describe_port : (info : ℕ) → Flow S PortLocals (Unit {0})
  unfolding get_onnx_type_from_type_info create_status cast_type_info_to_tensor_info
      get_tensor_element_type get_dimensions_count
  describe_port info = do
    kind ← check (get_onnx_type_from_type_info api a info)
    fail_if (not_tensor kind) (
        create_status api a OrtErrorCode.not_implemented
          "model inputs and outputs must be dense tensors")
    tensor ← check (cast_type_info_to_tensor_info api a info)
    type ← check (get_tensor_element_type api a info tensor)
    assign λ v. record v { port = record (v.port) { type = type } }
    answer ← check (get_dimensions_count api a info tensor)
    rank ← go_on (answer % 2 ^ 64)
    assign λ v. record v { port = record (v.port) { rank = rank } }
    load_shape info tensor rank (rank == 0)
    finish_port info

  unfoldable pub load_port : (inputs i : ℕ) → Flow S PortLocals (Unit {0})
  load_port inputs i = do info ← fetch inputs i (ltb i inputs); describe_port info
