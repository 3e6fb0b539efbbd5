-- ===== src/Go/Session/Describe.antt =====
-- What `run` of session.go checks and lays out before it calls the bridge.
use onnxcraft.Common.{
  ℕ, ◌+◌, ◌%◌, ◌^◌, Bool, not, ◌&&◌, List, [], ◌∷◌, ◌++◌, Option, none, some, ltb, ◌==◌,
  if◌then◌else◌, length, get_elem?, take, drop, replicate,
}
use onnxcraft.Ort.Enums.{OnnxTensorElementDataType}
use onnxcraft.Bridge.Types.{OcTensor}
use onnxcraft.Bridge.Run.{zero_tensor}
use onnxcraft.Go.Result.{Result, good, bad, ◌>>=◌}
use onnxcraft.Go.Tensor.{data_type_size}
use onnxcraft.Go.Runtime.{GoError, Session}
use onnxcraft.Go.Session.Operand.{Operand, byte_size, find_overlap}

-- `C.ONNXTensorElementDataType(tensor.dtype)`
abbrev enumerators : List OnnxTensorElementDataType
enumerators =
    OnnxTensorElementDataType.undefined ∷ OnnxTensorElementDataType.float
    ∷ OnnxTensorElementDataType.uint8 ∷ OnnxTensorElementDataType.int8
    ∷ OnnxTensorElementDataType.uint16 ∷ OnnxTensorElementDataType.int16
    ∷ OnnxTensorElementDataType.int32 ∷ OnnxTensorElementDataType.int64
    ∷ OnnxTensorElementDataType.string ∷ OnnxTensorElementDataType.bool
    ∷ OnnxTensorElementDataType.float16 ∷ OnnxTensorElementDataType.double
    ∷ OnnxTensorElementDataType.uint32 ∷ OnnxTensorElementDataType.uint64
    ∷ OnnxTensorElementDataType.complex64 ∷ OnnxTensorElementDataType.complex128
    ∷ OnnxTensorElementDataType.bfloat16 ∷ []

abbrev or_undefined : Option OnnxTensorElementDataType → OnnxTensorElementDataType
or_undefined none = OnnxTensorElementDataType.undefined
or_undefined (some t) = t

abbrev pub enumerator_of : ℕ → OnnxTensorElementDataType
enumerator_of d = or_undefined (get_elem? enumerators d)

abbrev pub descriptor : Operand → OcTensor
descriptor t = record {
  data_ptr = t.data_at;
  shape = t.shape_at;
  bytes = byte_size t % 2 ^ 64;
  rank = length t.dims;
  type = enumerator_of t.dtype;
  value = none;
}

-- The loop over the tensors, from index `i` on.
unfoldable pub describe_operands : (i : ℕ) → List Operand → Result GoError (List OcTensor)
unfolding data_type_size
describe_operands i [] = good []
describe_operands i (t ∷ ts) =
    let rest = describe_operands (i + 1) ts in
    if data_type_size t.dtype == 0
    then bad (GoError.invalid_tensor i)
    else (do ds ← rest; good (descriptor t ∷ ds))

abbrev pub no_overlap : Option ℕ → Result GoError (Unit {0})
no_overlap none = good tt
no_overlap (some i) = bad (GoError.overlapping_output i)

-- The checks of the numbers of tensors, and of overlaps. Without `into` there are no outputs.
unfoldable pub check_operands :
    Session → (into : Bool) → (inputs outputs : List Operand) → Result GoError (Unit {0})
unfolding find_overlap
check_operands s into inputs outputs =
    if not (length inputs == length s.inputs)
    then bad (GoError.wrong_inputs (length s.inputs) (length inputs))
    else (if into && not (length outputs == length s.outputs)
        then bad (GoError.wrong_outputs (length s.outputs) (length outputs))
        else no_overlap (find_overlap inputs 0 outputs))

-- The buffer of the pool, made larger where it is too small for `n` descriptors.
abbrev pub fitted : (n : ℕ) → List OcTensor → List OcTensor
fitted n buffer = if ltb (length buffer) n then replicate n zero_tensor else buffer

-- The first `n` descriptors of the buffer, with those of the tensors written over the first.
abbrev pub laid_out : (n : ℕ) → (buffer written : List OcTensor) → List OcTensor
laid_out n buffer written = written ++ drop (length written) (take n (fitted n buffer))

-- What goes back to the pool: `clear(descriptors)`.
abbrev pub cleared : (n : ℕ) → List OcTensor → List OcTensor
cleared n buffer = replicate n zero_tensor ++ drop n (fitted n buffer)
