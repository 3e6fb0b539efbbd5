-- ===== src/Go/Tensor/Defs.antt =====
-- `Tensor`, `NewTensor` and the methods of tensor.go. The data is a list of elements, which a copy
-- of the tensor shares.
use onnxcraft.Common.{ℕ, ℤ, List, length, ◌==◌, if◌then◌else◌, take}
use onnxcraft.Go.Result.{Result, good, bad}
use onnxcraft.Go.Tensor.Types.{Element, element_type, data_type_size}
use onnxcraft.Go.Tensor.Size.{SizeError, tensor_size}

pub record Tensor (A : Type 0) : Type 0 where
  pub data_at : List A
  pub dims : List ℤ
  pub count : ℕ
  pub dtype : ℕ

pub data TensorError : Type 0 where
  size_error : SizeError → TensorError
  wrong_count : (wanted given : ℕ) → TensorError
  wrong_type : (held requested : ℕ) → TensorError

module _ {A : Type 0} where
  unfoldable pub wrap_data :
      (dtype : ℕ) → List ℤ → List A → Result SizeError ℕ → Result TensorError (Tensor A)
  wrap_data dtype dims data_at (bad e) = bad (size_error e)
  wrap_data dtype dims data_at (good n) =
      if length data_at == n
      then good (record { data_at = data_at; dims = dims; count = n; dtype = dtype })
      else bad (wrong_count n (length data_at))

  -- `NewTensor[T]`
  unfoldable pub new_tensor : Element → List ℤ → List A → Result TensorError (Tensor A)
  unfolding wrap_data tensor_size element_type data_type_size
  new_tensor e dims data_at =
      wrap_data (element_type e) dims data_at (tensor_size dims (data_type_size (element_type e)))

  -- `t.Data[T]()`, the first `t.length` elements
  unfoldable pub tensor_data : Element → Tensor A → Result TensorError (List A)
  unfolding element_type
  tensor_data e t =
      if t.dtype == element_type e
      then good (take t.count t.data_at)
      else bad (wrong_type t.dtype (element_type e))
