-- ===== src/Ort/Calls/Value.antt =====
-- OrtValue, and `Run`, which fills the entries of the output array that are NULL.
use onnxcraft.Common.{ℕ, List, [], ◌∷◌, Option, none, some, ◌+◌}
use onnxcraft.Native.Ledger.{Kind, Resource, resource}
use onnxcraft.Native.Machine.{
  M, Reply, success, failure, pure, ◌>>=◌, ◌>>◌, acquire, call, block_of,
}
use onnxcraft.Native.Calls.{uses_all, asking, creating, reading, releasing}
use onnxcraft.Native.Rules.{opt_owned}
use onnxcraft.Ort.Enums.{OnnxTensorElementDataType, OrtMemoryInfoDeviceType}
use onnxcraft.Ort.Api.{OrtApi, TypeAndShape, RunReply, ran, stopped}

-- The values that an array of pointers holds.
abbrev pub values_owned : List (Option ℕ) → List Resource
values_owned [] = []
values_owned (none ∷ vs) = values_owned vs
values_owned (some v ∷ vs) = resource Kind.value_handle v ∷ values_owned vs

-- `Run` puts new values into the NULL entries, which the caller then owns.
unfoldable pub fill_outputs :
    {S : Type 0} → (ℕ → Option ℕ) → ℕ → List (Option ℕ) → M S (List (Option ℕ))
unfolding block_of
fill_outputs f i [] = pure []
fill_outputs f i (some v ∷ vs) = do rest ← fill_outputs f (i + 1) vs; pure (some v ∷ rest)
fill_outputs f i (none ∷ vs) = do
  v ← block_of Kind.value_handle (f i)
  rest ← fill_outputs f (i + 1) vs
  pure (v ∷ rest)

-- The outputs of a run and how it went.
unfoldable pub run_reply :
    {S : Type 0} → List (Option ℕ) → RunReply → M S (Reply (Unit {0}) × List (Option ℕ))
unfolding fill_outputs acquire
run_reply vs (ran f) = do vs' ← fill_outputs (λ i. some (f i)) 0 vs; pure (success tt, vs')
run_reply vs (stopped st f) = do
  vs' ← fill_outputs f 0 vs
  acquire Kind.status_handle st
  pure (failure st, vs')

module _ {S : Type 0} (api : OrtApi S) (a : ℕ) where
  unfoldable pub create_tensor_with_data_as_ort_value :
      (memory data_ptr bytes shape rank : ℕ) → OnnxTensorElementDataType → M S (Reply ℕ)
  create_tensor_with_data_as_ort_value memory data_ptr bytes shape rank type =
      creating Kind.value_handle
        (resource Kind.library_handle a ∷ resource Kind.memory_info_handle memory ∷ [])
        (api.create_tensor_with_data_as_ort_value memory data_ptr bytes shape rank type)

  unfoldable pub release_value : ℕ → M S (Unit {0})
  release_value v =
      releasing Kind.value_handle v (resource Kind.library_handle a ∷ []) (api.release_value v)

  -- The memory info belongs to the value.
  unfoldable pub get_tensor_memory_info : ℕ → M S (Reply ℕ)
  get_tensor_memory_info v =
      asking (resource Kind.library_handle a ∷ resource Kind.value_handle v ∷ [])
        (api.get_tensor_memory_info v)

  unfoldable pub memory_info_get_device_type : (value info : ℕ) → M S OrtMemoryInfoDeviceType
  memory_info_get_device_type v info =
      reading (resource Kind.library_handle a ∷ resource Kind.value_handle v ∷ [])
        (api.memory_info_get_device_type info)

  unfoldable pub get_tensor_element_type_and_shape_data_reference : ℕ → M S (Reply TypeAndShape)
  get_tensor_element_type_and_shape_data_reference v =
      asking (resource Kind.library_handle a ∷ resource Kind.value_handle v ∷ [])
        (api.get_tensor_element_type_and_shape_data_reference v)

  unfoldable pub get_tensor_size_in_bytes : ℕ → M S (Reply ℕ)
  get_tensor_size_in_bytes v =
      asking (resource Kind.library_handle a ∷ resource Kind.value_handle v ∷ [])
        (api.get_tensor_size_in_bytes v)

  unfoldable pub get_tensor_mutable_data : ℕ → M S (Reply ℕ)
  get_tensor_mutable_data v =
      asking (resource Kind.library_handle a ∷ resource Kind.value_handle v ∷ [])
        (api.get_tensor_mutable_data v)

  unfoldable pub ort_run :
      (session : ℕ)
      → (options : Option ℕ) → (input_names inputs output_names outputs : List (Option ℕ))
      → M S (Reply (Unit {0}) × List (Option ℕ))
  unfolding uses_all call run_reply
  ort_run s options input_names inputs output_names outputs = do
    uses_all (resource Kind.library_handle a ∷ resource Kind.session_handle s ∷ [])
    uses_all (opt_owned Kind.run_options_handle options)
    uses_all (values_owned inputs)
    uses_all (values_owned outputs)
    r ← call (api.run s options input_names inputs output_names outputs)
    run_reply outputs r
