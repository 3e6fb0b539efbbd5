-- ===== src/Tests/Fixture.antt =====
-- A small ONNX Runtime and C library on which the definitions run: every handle is a new number, a
-- model has one input and two outputs, each a vector of one element, and the call that `Stage` names
-- fails.
use onnxcraft.Common.{ℕ, ◌+◌, pos, Bool, true, false, Option, none, some}
use onnxcraft.Native.Machine.{Reply, success, failure}
use onnxcraft.Ort.Enums.{OrtErrorCode, OnnxTensorElementDataType, OnnxType, OrtMemoryInfoDeviceType}
use onnxcraft.Ort.Api.{OrtApi, OrtAllocator, Host, Platform, posix, windows, Posix, Windows, ran}

pub data Stage : Type 0 where
  nowhere : Stage
  at_memory : Stage
  at_options : Stage
  at_metadata : Stage
  at_cuda : Stage
  at_terminate : Stage

-- The next handle.
abbrev fresh : ℕ → ℕ × ℕ
fresh s = (s, s + 1)

abbrev made : ℕ → Reply ℕ × ℕ
made s = (success s, s + 1)

abbrev fine : ℕ → Reply (Unit {0}) × ℕ
fine s = (success tt, s)

abbrev refuse : {A : Type 0} → ℕ → Reply A × ℕ
refuse s = (failure s, s + 1)

abbrev memory_fails : Stage → Bool
memory_fails Stage.at_memory = true
memory_fails _ = false

abbrev options_fail : Stage → Bool
options_fail Stage.at_options = true
options_fail _ = false

abbrev metadata_fails : Stage → Bool
metadata_fails Stage.at_metadata = true
metadata_fails _ = false

abbrev cuda_fails : Stage → Bool
cuda_fails Stage.at_cuda = true
cuda_fails _ = false

abbrev terminate_fails : Stage → Bool
terminate_fails Stage.at_terminate = true
terminate_fails _ = false

abbrev unless : {A : Type 0} → Bool → (ℕ → Reply A × ℕ) → ℕ → Reply A × ℕ
unless true f = refuse
unless false f = f

abbrev block : ℕ → Option ℕ × ℕ
block s = (some s, s + 1)

-- Its optional slots are NULL.
abbrev cpu_allocator : OrtAllocator ℕ
cpu_allocator = record {
  version = 29;
  alloc = λ this size s. block s;
  free = λ this p s. s;
  info = λ this s. (0, s);
  reserve = none;
  get_stats = none;
  alloc_on_stream = none;
  shrink = none;
}

abbrev pub api_failing : Stage → OrtApi ℕ
api_failing stage = record {
  create_status = λ c message s. fresh s;
  get_error_code = λ st s. (OrtErrorCode.fail, s);
  get_error_message = λ st s. ("injected failure", s);
  release_status = λ st s. s;
  create_env = λ level id s. made s;
  release_env = λ e s. s;
  disable_telemetry_events = λ e s. fine s;
  create_cpu_memory_info = λ kind mem. unless (memory_fails stage) made;
  release_memory_info = λ m s. s;
  get_allocator_with_default_options = λ s. (success 0, s);
  allocator_at = λ allocator. cpu_allocator;
  create_session_options = λ s. made s;
  release_session_options = λ o s. s;
  set_intra_op_num_threads = λ o n. unless (options_fail stage) fine;
  set_inter_op_num_threads = λ o n s. fine s;
  set_session_execution_mode = λ o mode s. fine s;
  set_session_graph_optimization_level = λ o level s. fine s;
  add_session_config_entry = λ o k v s. fine s;
  create_cuda_provider_options = λ s. made s;
  update_cuda_provider_options = λ p kvs. unless (cuda_fails stage) fine;
  append_cuda = λ o p s. fine s;
  release_cuda_provider_options = λ p s. s;
  create_tensorrt_provider_options = λ s. made s;
  update_tensorrt_provider_options = λ p kvs s. fine s;
  append_tensorrt = λ o p s. fine s;
  release_tensorrt_provider_options = λ p s. s;
  append_openvino = λ o kvs s. fine s;
  append_execution_provider = λ o name kvs s. fine s;
  create_session = λ env path o s. made s;
  create_session_from_array = λ env model size o s. made s;
  release_session = λ h s. s;
  session_get_input_count = λ h s. (success 1, s);
  session_get_output_count = λ h s. (success 2, s);
  session_get_input_name = λ h i allocator s. made s;
  session_get_output_name = λ h i allocator s. made s;
  session_get_input_type_info = λ h i s. made s;
  session_get_output_type_info = λ h i s. made s;
  run = λ h o ins xs outs ys s. (ran (λ i. s + i), s + 100);
  get_onnx_type_from_type_info = λ t s. (success OnnxType.tensor, s);
  cast_type_info_to_tensor_info = λ t s. (success (some t), s);
  get_tensor_element_type = λ t s. (success OnnxTensorElementDataType.float, s);
  get_dimensions_count = λ t. unless (metadata_fails stage) (λ s. (success 1, s));
  get_dimensions = λ t n s. (success (λ i. pos 1), s);
  release_type_info = λ t s. s;
  create_tensor_with_data_as_ort_value = λ m p bytes shape rank type s. made s;
  release_value = λ v s. s;
  get_tensor_memory_info = λ v s. (success 0, s);
  memory_info_get_device_type = λ m s. (OrtMemoryInfoDeviceType.cpu, s);
  get_tensor_element_type_and_shape_data_reference = λ v s. (
    success (record {
      elem_type = OnnxTensorElementDataType.float;
      shape_data = 72;
      shape_data_count = 1;
    }),
    s,
  );
  get_tensor_size_in_bytes = λ v s. (success 4, s);
  get_tensor_mutable_data = λ v s. (success 64, s);
  create_run_options = λ s. made s;
  run_options_set_terminate = λ o. unless (terminate_fails stage) fine;
  release_run_options = λ o s. s;
}

abbrev posix_os : Posix ℕ
posix_os = record {
  dlopen = λ path s. block s;
  dlerror = λ s. ("no such library", s);
  dlsym = λ l name s. (true, s);
  dlclose = λ l s. s;
}

-- `convertible` says whether paths are valid UTF-8.
abbrev pub windows_os : Bool → Windows ℕ
windows_os convertible = record {
  wide_length = λ path s. (20, s);
  multi_byte_to_wide_char = λ path p n s. (convertible, s);
  load_library_ex_w = λ p s. block s;
  get_proc_address = λ l name s. (true, s);
  free_library = λ l s. s;
  get_last_error = λ s. (126, s);
  windows_error = λ code. "load ONNX Runtime: Windows error 126";
}

abbrev libc_on : Platform ℕ → Host ℕ
libc_on platform = record {
  platform = platform;
  calloc = λ n size s. block s;
  malloc = λ size s. block s;
  strdup = λ text s. block s;
  free = λ p s. s;
  get_api_base = λ l s. (true, s);
  get_api = λ l version s. (true, s);
  get_version_string = λ l s. ("failure-fixture", s);
}

abbrev pub libc : Host ℕ
libc = libc_on (posix posix_os)

abbrev pub libc_windows : Bool → Host ℕ
libc_windows convertible = libc_on (windows (windows_os convertible))
