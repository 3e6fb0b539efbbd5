-- ===== src/Go/Session/Outputs.antt =====
-- What `run` of session.go makes of the outputs that `oc_run` leaves: tensors of their own storage.
use onnxcraft.Common.{
  ℕ, ℤ, ◌+◌, ◌*◌, ◌%◌, ◌^◌, Bool, not, ◌&&◌, ◌||◌, List, [], ◌∷◌, ◌==◌, if◌then◌else◌,
}
use onnxcraft.Native.Machine.{M, pure, ◌>>=◌, deref}
use onnxcraft.Ort.Enums.{element_data_type_value}
use onnxcraft.Bridge.Types.{OcTensor}
use onnxcraft.Go.Result.{Result, good, bad}
use onnxcraft.Go.Cgo.{Cgo, slice_wraps, slice_null, value_bytes, value_dims}
use onnxcraft.Go.Tensor.{SizeError, Tensor, data_type_size, tensor_size}
use onnxcraft.Go.Runtime.{GoError, on_good}

-- `DataType(output._type)`
abbrev pub output_type : OcTensor → ℕ
output_type t = element_data_type_value t.type % 2 ^ 8

-- `C.size_t(nbytes) != output.bytes || (nbytes != 0 && output.data == nil)`
abbrev pub is_inconsistent : (nbytes : ℕ) → OcTensor → Bool
is_inconsistent nbytes t =
    not (nbytes % 2 ^ 64 == t.bytes) || (not (nbytes == 0) && (t.data_ptr == 0))

module _ {S : Type 0} (cgo : Cgo S) where
  -- The copy of `nbytes` bytes. The tensor's data is its bytes. That there are as many at an address
  -- that is not NULL is for the test before it to say.
  unfoldable pub copy_output :
      (t : OcTensor) → (value : ℕ) → List ℤ → (count nbytes : ℕ) → M S (Result GoError (Tensor ℕ))
  unfolding value_bytes
  copy_output t v shape count nbytes =
      if slice_wraps t.data_ptr nbytes 1 then pure (bad GoError.slice_panic) else (do
        bytes ← value_bytes cgo v t.data_ptr t.bytes nbytes
        pure
            (good (record { data_at = bytes; dims = shape; count = count; dtype = output_type t })))

  unfoldable pub sized_output :
      (i : ℕ)
      → (t : OcTensor) → (value : ℕ) → List ℤ
      → Result SizeError ℕ
      → M S (Result GoError (Tensor ℕ))
  unfolding copy_output data_type_size
  sized_output i t v shape (bad e) = pure (bad (GoError.output_size e))
  sized_output i t v shape (good n) =
      let nbytes = n * data_type_size (output_type t) in
      if is_inconsistent nbytes t
      then pure (bad (GoError.inconsistent_output i))
      else copy_output t v shape n nbytes

  -- Where the slice of dimensions can be made.
  unfoldable pub shaped_output :
      (i : ℕ) → (t : OcTensor) → (value : ℕ) → M S (Result GoError (Tensor ℕ))
  unfolding value_dims tensor_size data_type_size sized_output
  shaped_output i t v = do
    shape ← value_dims cgo v t.shape t.rank
    sized_output i t v shape (tensor_size shape (data_type_size (output_type t)))

  unfoldable pub take_output : (i : ℕ) → OcTensor → M S (Result GoError (Tensor ℕ))
  unfolding shaped_output
  take_output i t = do
    v ← deref t.value
    (if slice_wraps t.shape t.rank 8 || slice_null t.shape t.rank
        then pure (bad GoError.slice_panic)
        else shaped_output i t v)

  -- The loop over the outputs, from index `i` on.
  unfoldable pub take_outputs : (i : ℕ) → List OcTensor → M S (Result GoError (List (Tensor ℕ)))
  unfolding take_output on_good
  take_outputs i [] = pure (good [])
  take_outputs i (t ∷ ts) = do
    x ← take_output i t
    on_good x λ x. (do rest ← take_outputs (i + 1) ts; on_good rest λ xs. pure (good (x ∷ xs)))
