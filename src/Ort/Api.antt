-- ===== src/Ort/Api.antt =====
-- The table of functions that `GetApi` returns, as far as bridge.c uses it, and the C library and
-- loader functions that bridge.c calls. Neither is part of this repository, so they are parameters:
-- a function of the state of those libraries to an answer and a new state. Nothing is assumed of
-- the answers.
use onnxcraft.Common.{ℕ, ℤ, Bool, String, List, Option}
use onnxcraft.Native.Machine.{Reply}
use onnxcraft.Ort.Enums.{
  OrtErrorCode, OnnxTensorElementDataType, OnnxType, OrtLoggingLevel, GraphOptimizationLevel,
  ExecutionMode, OrtAllocatorType, OrtMemType, OrtMemoryInfoDeviceType,
}

-- The three out parameters of `GetTensorElementTypeAndShapeDataReference`.
pub record TypeAndShape : Type 0 where
  pub elem_type : OnnxTensorElementDataType
  pub shape_data : ℕ
  pub shape_data_count : ℕ

-- What `Run` leaves in the entries of `outputs` that were NULL: a value in each, or a status and a
-- value in some.
pub data RunReply : Type 0 where
  ran : (ℕ → ℕ) → RunReply
  stopped : ℕ → (ℕ → Option ℕ) → RunReply

-- An allocator: the functions are given the allocator's address.
pub record OrtAllocator (S : Type 0) : Type 0 where
  pub version : ℕ
  pub alloc : (this size : ℕ) → S → Option ℕ × S
  pub free : (this p : ℕ) → S → S
  pub info : (this : ℕ) → S → ℕ × S
  -- The slots from here on are NULL in an older allocator or where they are not implemented.
  pub reserve : Option ((this size : ℕ) → S → Option ℕ × S)
  pub get_stats : Option ((this : ℕ) → S → Reply ℕ × S)
  pub alloc_on_stream : Option ((this size stream : ℕ) → S → Option ℕ × S)
  pub shrink : Option ((this : ℕ) → S → Reply (Unit {0}) × S)

pub record OrtApi (S : Type 0) : Type 0 where
  -- OrtStatus
  pub create_status : OrtErrorCode → String → S → ℕ × S
  pub get_error_code : ℕ → S → OrtErrorCode × S
  pub get_error_message : ℕ → S → String × S
  pub release_status : ℕ → S → S
  -- OrtEnv, OrtMemoryInfo, OrtAllocator
  pub create_env : OrtLoggingLevel → String → S → Reply ℕ × S
  pub release_env : ℕ → S → S
  pub disable_telemetry_events : ℕ → S → Reply (Unit {0}) × S
  pub create_cpu_memory_info : OrtAllocatorType → OrtMemType → S → Reply ℕ × S
  pub release_memory_info : ℕ → S → S
  pub get_allocator_with_default_options : S → Reply ℕ × S
  pub allocator_at : ℕ → OrtAllocator S
  -- OrtSessionOptions
  pub create_session_options : S → Reply ℕ × S
  pub release_session_options : ℕ → S → S
  pub set_intra_op_num_threads : (options : ℕ) → (threads : ℤ) → S → Reply (Unit {0}) × S
  pub set_inter_op_num_threads : (options : ℕ) → (threads : ℤ) → S → Reply (Unit {0}) × S
  pub set_session_execution_mode : ℕ → ExecutionMode → S → Reply (Unit {0}) × S
  pub set_session_graph_optimization_level : ℕ → GraphOptimizationLevel → S → Reply (Unit {0}) × S
  pub add_session_config_entry : ℕ → (key value : String) → S → Reply (Unit {0}) × S
  -- execution providers
  pub create_cuda_provider_options : S → Reply ℕ × S
  pub update_cuda_provider_options : ℕ → List (String × String) → S → Reply (Unit {0}) × S
  pub append_cuda : (options cuda : ℕ) → S → Reply (Unit {0}) × S
  pub release_cuda_provider_options : ℕ → S → S
  pub create_tensorrt_provider_options : S → Reply ℕ × S
  pub update_tensorrt_provider_options : ℕ → List (String × String) → S → Reply (Unit {0}) × S
  pub append_tensorrt : (options tensorrt : ℕ) → S → Reply (Unit {0}) × S
  pub release_tensorrt_provider_options : ℕ → S → S
  pub append_openvino : ℕ → List (String × String) → S → Reply (Unit {0}) × S
  pub append_execution_provider : ℕ → String → List (String × String) → S → Reply (Unit {0}) × S
  -- OrtSession
  pub create_session : (env : ℕ) → String → (options : ℕ) → S → Reply ℕ × S
  pub create_session_from_array : (env model length options : ℕ) → S → Reply ℕ × S
  pub release_session : ℕ → S → S
  pub session_get_input_count : ℕ → S → Reply ℕ × S
  pub session_get_output_count : ℕ → S → Reply ℕ × S
  pub session_get_input_name : (session index allocator : ℕ) → S → Reply ℕ × S
  pub session_get_output_name : (session index allocator : ℕ) → S → Reply ℕ × S
  pub session_get_input_type_info : (session index : ℕ) → S → Reply ℕ × S
  pub session_get_output_type_info : (session index : ℕ) → S → Reply ℕ × S
  pub run :
      (session : ℕ)
      → (options : Option ℕ) → (input_names inputs : List (Option ℕ))
      → (output_names outputs : List (Option ℕ)) → S
      → RunReply × S
  -- OrtTypeInfo
  pub get_onnx_type_from_type_info : ℕ → S → Reply OnnxType × S
  pub cast_type_info_to_tensor_info : ℕ → S → Reply (Option ℕ) × S
  pub get_tensor_element_type : Option ℕ → S → Reply OnnxTensorElementDataType × S
  pub get_dimensions_count : Option ℕ → S → Reply ℕ × S
  pub get_dimensions : Option ℕ → (length : ℕ) → S → Reply (ℕ → ℤ) × S
  pub release_type_info : ℕ → S → S
  -- OrtValue
  pub create_tensor_with_data_as_ort_value :
      (memory data_ptr bytes shape rank : ℕ) → OnnxTensorElementDataType → S → Reply ℕ × S
  pub release_value : ℕ → S → S
  pub get_tensor_memory_info : ℕ → S → Reply ℕ × S
  pub memory_info_get_device_type : ℕ → S → OrtMemoryInfoDeviceType × S
  pub get_tensor_element_type_and_shape_data_reference : ℕ → S → Reply TypeAndShape × S
  pub get_tensor_size_in_bytes : ℕ → S → Reply ℕ × S
  pub get_tensor_mutable_data : ℕ → S → Reply ℕ × S
  -- OrtRunOptions
  pub create_run_options : S → Reply ℕ × S
  pub run_options_set_terminate : ℕ → S → Reply (Unit {0}) × S
  pub release_run_options : ℕ → S → S

-- The loader of shared libraries where `_WIN32` is not defined: `dlopen` answers NULL or a library,
-- `dlsym` whether the symbol is there.
pub record Posix (S : Type 0) : Type 0 where
  pub dlopen : String → S → Option ℕ × S
  pub dlerror : S → String × S
  pub dlsym : (library : ℕ) → String → S → Bool × S
  pub dlclose : ℕ → S → S

-- The functions of Windows. `MultiByteToWideChar` is called for the length of the wide text, which
-- is 0 where it fails, then with a buffer of that length. `windows_error` is the text that `snprintf`
-- makes of `GetLastError`.
pub record Windows (S : Type 0) : Type 0 where
  pub wide_length : String → S → ℕ × S
  pub multi_byte_to_wide_char : String → (buffer length : ℕ) → S → Bool × S
  pub load_library_ex_w : (wide : ℕ) → S → Option ℕ × S
  pub get_proc_address : (library : ℕ) → String → S → Bool × S
  pub free_library : ℕ → S → S
  pub get_last_error : S → ℕ × S
  pub windows_error : ℕ → String

pub data Platform (S : Type 0) : Type 0 where
  posix : Posix S → Platform S
  windows : Windows S → Platform S

-- `calloc`, `malloc`, `strdup` answer NULL or a block; `OrtGetApiBase` and `GetApi` whether the
-- pointer is there.
pub record Host (S : Type 0) : Type 0 where
  pub platform : Platform S
  pub calloc : (count size : ℕ) → S → Option ℕ × S
  pub malloc : (size : ℕ) → S → Option ℕ × S
  pub strdup : String → S → Option ℕ × S
  pub free : ℕ → S → S
  pub get_api_base : (library : ℕ) → S → Bool × S
  pub get_api : (library version : ℕ) → S → Bool × S
  pub get_version_string : (library : ℕ) → S → String × S
