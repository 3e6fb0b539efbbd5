-- ===== src/Bridge/Run/Body.antt =====
-- The body of `run` from the first tensor to the label.
use onnxcraft.Common.{
  ℕ, zero, suc, ◌+◌, ◌-◌, ◌%◌, ◌^◌, Bool, true, false, not, ◌&&◌, List, ◌++◌, Option, none, some,
  ltb, ◌==◌, is_some, if◌then◌else◌, get_elem?, set, take, drop,
}
use onnxcraft.Native.Machine.{deref}
use onnxcraft.Native.Machine
use onnxcraft.Native.Flow.{Flow, ◌>>=◌, ◌>>◌, go_on, check, plain, assign, locals, fail_if}
use onnxcraft.Ort.Enums.{OrtErrorCode, OrtMemoryInfoDeviceType}
use onnxcraft.Ort.Api.{OrtApi}
use onnxcraft.Ort.Calls.{
  create_status, create_tensor_with_data_as_ort_value, ort_run, get_tensor_memory_info,
  memory_info_get_device_type, get_tensor_element_type_and_shape_data_reference,
  get_tensor_size_in_bytes, get_tensor_mutable_data,
}
use onnxcraft.Bridge.Types.{OcSession, OcTensor}

pub record RunLocals : Type 0 where
  pub values : List (Option ℕ)
  pub outputs : List OcTensor

-- `t->bytes ? t->data : &empty`
abbrev pub data_or : (empty : ℕ) → OcTensor → ℕ
data_or empty t = if t.bytes == 0 then empty else t.data_ptr

-- `device != OrtMemoryInfoDeviceType_CPU`
unfoldable pub not_cpu : OrtMemoryInfoDeviceType → Bool
not_cpu OrtMemoryInfoDeviceType.cpu = false
not_cpu _ = true

-- `&preallocated[i]`
abbrev pub preallocated_at : Option (List OcTensor) → ℕ → Option OcTensor
preallocated_at none i = none
preallocated_at (some ps) i = get_elem? ps i

-- `&inputs[i]` or `&preallocated[i - s->inputs]`
abbrev pub tensor_at : (inputs i : ℕ) → List OcTensor → Option (List OcTensor) → Option OcTensor
tensor_at inputs i ts pre =
    if ltb i inputs then get_elem? ts i else preallocated_at pre (i - inputs)

module _ {S : Type 0} where
  -- An assignment to fields of `*t`, where `t` is `&outputs[i]`.
  unfoldable pub write_output : (i : ℕ) → (OcTensor → OcTensor) → Flow S RunLocals (Unit {0})
  unfolding deref
  write_output i f = do
    l ← locals
    t ← plain (deref (get_elem? l.outputs i))
    assign λ l. record l { outputs = set l.outputs i (f t) }

  -- `t->value = values[s->inputs + i]; values[s->inputs + i] = NULL;`
  unfoldable pub take_value : (inputs i : ℕ) → Flow S RunLocals ℕ
  unfolding write_output deref
  take_value inputs i = do
    l ← locals
    v ← plain (deref (get_elem? l.values (inputs + i)))
    write_output i λ t. record t { value = v }
    assign λ l. record l { values = set l.values (inputs + i) none }
    plain (deref v)

-- `empty` is the address of the static variable of that name.
module _ {S : Type 0} (api : OrtApi S) (a empty : ℕ) where
  unfoldable pub create_value :
      (memory : Option ℕ) → (i : ℕ) → Option OcTensor → Flow S RunLocals (Unit {0})
  unfolding create_tensor_with_data_as_ort_value deref
  create_value memory i t? = do
    t ← plain (deref t?)
    m ← plain (deref memory)
    v ← check (
        create_tensor_with_data_as_ort_value api a m (data_or empty t) t.bytes t.shape t.rank
          t.type)
    assign λ l. record l { values = set l.values i (some v) }

  -- The loop that makes values of the tensors, `k` rounds from `i`.
  unfoldable pub create_values :
      (memory : Option ℕ)
      → (inputs : ℕ) → List OcTensor
      → Option (List OcTensor)
      → (k i : ℕ) → Flow S RunLocals (Unit {0})
  unfolding create_value
  create_values memory inputs ts pre zero i = go_on tt
  create_values memory inputs ts pre (suc k) i =
      let rest = create_values memory inputs ts pre k (i + 1) in
      if not (ltb i inputs) && not (is_some pre)
      then go_on tt
      else (create_value memory i (tensor_at inputs i ts pre) >> rest)

  -- What is read of the value `v`. The answers are of type `size_t`.
  unfoldable pub describe_output : (i v : ℕ) → Flow S RunLocals (Unit {0})
  unfolding write_output get_tensor_memory_info memory_info_get_device_type create_status
      get_tensor_element_type_and_shape_data_reference get_tensor_size_in_bytes
      get_tensor_mutable_data
  describe_output i v = do
    memory ← check (get_tensor_memory_info api a v)
    device ← plain (memory_info_get_device_type api a v memory)
    fail_if (not_cpu device)
        (create_status api a OrtErrorCode.not_implemented "output tensor is not in CPU memory")
    d ← check (get_tensor_element_type_and_shape_data_reference api a v)
    write_output i λ t. record t {
      type = d.elem_type;
      shape = d.shape_data;
      rank = d.shape_data_count % 2 ^ 64;
    }
    bytes ← check (get_tensor_size_in_bytes api a v)
    write_output i λ t. record t { bytes = bytes % 2 ^ 64 }
    data_ptr ← check (get_tensor_mutable_data api a v)
    write_output i λ t. record t { data_ptr = data_ptr }

  -- The loop over the outputs, `k` rounds from `i`.
  unfoldable pub collect : (inputs k i : ℕ) → Flow S RunLocals (Unit {0})
  unfolding take_value describe_output
  collect inputs zero i = go_on tt
  collect inputs (suc k) i = do
    v ← take_value inputs i
    describe_output i v
    collect inputs k (i + 1)

  -- `CHECK(a->Run(...))`, which writes to the entries of `values` behind the inputs.
  unfoldable pub run_values :
      OcSession → (options : Option ℕ) → (h : ℕ) → Flow S RunLocals (Unit {0})
  unfolding ort_run
  run_values s options h = do
    l ← locals
    r ← plain (
        ort_run api a h options (take s.inputs s.name_array) (take s.inputs l.values)
          (drop s.inputs s.name_array) (drop s.inputs l.values))
    assign λ l. record l { values = take s.inputs l.values ++ r.1 }
    check (λ w. Machine.done r.0 w)

  unfoldable pub run_body :
      OcSession
      → (options : Option ℕ) → List OcTensor
      → Option (List OcTensor)
      → (n : ℕ) → Flow S RunLocals (Unit {0})
  unfolding create_values run_values collect deref
  run_body s options ts pre n = do
    create_values s.runtime.memory s.inputs ts pre n 0
    h ← plain (deref s.handle)
    run_values s options h
    if is_some pre then go_on tt else collect s.inputs s.outputs 0
