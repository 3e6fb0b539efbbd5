-- ===== src/Ort/Calls/TypeInfo.antt =====
-- OrtTypeInfo. The tensor info that `CastTypeInfoToTensorInfo` yields lives as long as the type
-- info, so its readers are given the type info that must be live.
use onnxcraft.Common.{ℕ, zero, suc, ℤ, List, [], ◌∷◌, Option, ◌+◌, ◌*◌, leb, if◌then◌else◌}
use onnxcraft.Native.Ledger.{Kind, resource}
use onnxcraft.Native.Machine.{M, Reply, undefined}
use onnxcraft.Native.Calls.{asking, releasing}
use onnxcraft.Ort.Enums.{OnnxTensorElementDataType, OnnxType}
use onnxcraft.Ort.Api.{OrtApi}

-- An array of `n` entries from `i` on.
unfoldable pub tabulate : {A : Type 0} → (ℕ → A) → (i n : ℕ) → List A
tabulate f i zero = []
tabulate f i (suc n) = f i ∷ tabulate f (i + 1) n

module _ {S : Type 0} (api : OrtApi S) (a : ℕ) where
  unfoldable pub get_onnx_type_from_type_info : ℕ → M S (Reply OnnxType)
  get_onnx_type_from_type_info info =
      asking (resource Kind.library_handle a ∷ resource Kind.type_info_handle info ∷ [])
        (api.get_onnx_type_from_type_info info)

  unfoldable pub cast_type_info_to_tensor_info : ℕ → M S (Reply (Option ℕ))
  cast_type_info_to_tensor_info info =
      asking (resource Kind.library_handle a ∷ resource Kind.type_info_handle info ∷ [])
        (api.cast_type_info_to_tensor_info info)

  unfoldable pub get_tensor_element_type :
      (info : ℕ) → Option ℕ → M S (Reply OnnxTensorElementDataType)
  get_tensor_element_type info tensor =
      asking (resource Kind.library_handle a ∷ resource Kind.type_info_handle info ∷ [])
        (api.get_tensor_element_type tensor)

  unfoldable pub get_dimensions_count : (info : ℕ) → Option ℕ → M S (Reply ℕ)
  get_dimensions_count info tensor =
      asking (resource Kind.library_handle a ∷ resource Kind.type_info_handle info ∷ [])
        (api.get_dimensions_count tensor)

  -- The entry written at each index of the array of `n`, which must have as many `int64_t`: it lies in
  -- a block of `bytes` bytes.
  unfoldable pub get_dimensions :
      (info : ℕ) → Option ℕ → (bytes : ℕ) → (length : ℕ) → M S (Reply (ℕ → ℤ))
  get_dimensions info tensor bytes n =
      if leb (n * 8) bytes
      then asking (resource Kind.library_handle a ∷ resource Kind.type_info_handle info ∷ [])
          (api.get_dimensions tensor n)
      else undefined

  unfoldable pub release_type_info : ℕ → M S (Unit {0})
  release_type_info info =
      releasing Kind.type_info_handle info (resource Kind.library_handle a ∷ [])
        (api.release_type_info info)
