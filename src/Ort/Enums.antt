-- ===== src/Ort/Enums.antt =====
-- Enumerations of onnxruntime_c_api.h and onnxruntime_error_code.h, with their numeric values where
-- the program computes with them.
use onnxcraft.Common.{ℕ}

pub data OrtErrorCode : Type 0 where
  ok : OrtErrorCode
  fail : OrtErrorCode
  invalid_argument : OrtErrorCode
  no_suchfile : OrtErrorCode
  no_model : OrtErrorCode
  engine_error : OrtErrorCode
  runtime_exception : OrtErrorCode
  invalid_protobuf : OrtErrorCode
  model_loaded : OrtErrorCode
  not_implemented : OrtErrorCode
  invalid_graph : OrtErrorCode
  ep_fail : OrtErrorCode
  model_load_canceled : OrtErrorCode
  model_requires_compilation : OrtErrorCode
  not_found : OrtErrorCode
  device_reset : OrtErrorCode

-- The value of the C enumerator.
unfoldable pub error_code_value : OrtErrorCode → ℕ
error_code_value OrtErrorCode.ok = 0
error_code_value OrtErrorCode.fail = 1
error_code_value OrtErrorCode.invalid_argument = 2
error_code_value OrtErrorCode.no_suchfile = 3
error_code_value OrtErrorCode.no_model = 4
error_code_value OrtErrorCode.engine_error = 5
error_code_value OrtErrorCode.runtime_exception = 6
error_code_value OrtErrorCode.invalid_protobuf = 7
error_code_value OrtErrorCode.model_loaded = 8
error_code_value OrtErrorCode.not_implemented = 9
error_code_value OrtErrorCode.invalid_graph = 10
error_code_value OrtErrorCode.ep_fail = 11
error_code_value OrtErrorCode.model_load_canceled = 12
error_code_value OrtErrorCode.model_requires_compilation = 13
error_code_value OrtErrorCode.not_found = 14
error_code_value OrtErrorCode.device_reset = 15

pub data OnnxTensorElementDataType : Type 0 where
  undefined : OnnxTensorElementDataType
  float : OnnxTensorElementDataType
  uint8 : OnnxTensorElementDataType
  int8 : OnnxTensorElementDataType
  uint16 : OnnxTensorElementDataType
  int16 : OnnxTensorElementDataType
  int32 : OnnxTensorElementDataType
  int64 : OnnxTensorElementDataType
  string : OnnxTensorElementDataType
  bool : OnnxTensorElementDataType
  float16 : OnnxTensorElementDataType
  double : OnnxTensorElementDataType
  uint32 : OnnxTensorElementDataType
  uint64 : OnnxTensorElementDataType
  complex64 : OnnxTensorElementDataType
  complex128 : OnnxTensorElementDataType
  bfloat16 : OnnxTensorElementDataType
  float8e4m3fn : OnnxTensorElementDataType
  float8e4m3fnuz : OnnxTensorElementDataType
  float8e5m2 : OnnxTensorElementDataType
  float8e5m2fnuz : OnnxTensorElementDataType
  uint4 : OnnxTensorElementDataType
  int4 : OnnxTensorElementDataType
  float4e2m1 : OnnxTensorElementDataType
  uint2 : OnnxTensorElementDataType
  int2 : OnnxTensorElementDataType
  float8e8m0 : OnnxTensorElementDataType

-- The value of the C enumerator.
unfoldable pub element_data_type_value : OnnxTensorElementDataType → ℕ
element_data_type_value OnnxTensorElementDataType.undefined = 0
element_data_type_value OnnxTensorElementDataType.float = 1
element_data_type_value OnnxTensorElementDataType.uint8 = 2
element_data_type_value OnnxTensorElementDataType.int8 = 3
element_data_type_value OnnxTensorElementDataType.uint16 = 4
element_data_type_value OnnxTensorElementDataType.int16 = 5
element_data_type_value OnnxTensorElementDataType.int32 = 6
element_data_type_value OnnxTensorElementDataType.int64 = 7
element_data_type_value OnnxTensorElementDataType.string = 8
element_data_type_value OnnxTensorElementDataType.bool = 9
element_data_type_value OnnxTensorElementDataType.float16 = 10
element_data_type_value OnnxTensorElementDataType.double = 11
element_data_type_value OnnxTensorElementDataType.uint32 = 12
element_data_type_value OnnxTensorElementDataType.uint64 = 13
element_data_type_value OnnxTensorElementDataType.complex64 = 14
element_data_type_value OnnxTensorElementDataType.complex128 = 15
element_data_type_value OnnxTensorElementDataType.bfloat16 = 16
element_data_type_value OnnxTensorElementDataType.float8e4m3fn = 17
element_data_type_value OnnxTensorElementDataType.float8e4m3fnuz = 18
element_data_type_value OnnxTensorElementDataType.float8e5m2 = 19
element_data_type_value OnnxTensorElementDataType.float8e5m2fnuz = 20
element_data_type_value OnnxTensorElementDataType.uint4 = 21
element_data_type_value OnnxTensorElementDataType.int4 = 22
element_data_type_value OnnxTensorElementDataType.float4e2m1 = 23
element_data_type_value OnnxTensorElementDataType.uint2 = 24
element_data_type_value OnnxTensorElementDataType.int2 = 25
element_data_type_value OnnxTensorElementDataType.float8e8m0 = 26

pub data OnnxType : Type 0 where
  unknown : OnnxType
  tensor : OnnxType
  sequence : OnnxType
  map : OnnxType
  opaque : OnnxType
  sparsetensor : OnnxType
  optional : OnnxType

pub data OrtLoggingLevel : Type 0 where
  verbose : OrtLoggingLevel
  info : OrtLoggingLevel
  warning : OrtLoggingLevel
  error : OrtLoggingLevel
  fatal : OrtLoggingLevel

pub data GraphOptimizationLevel : Type 0 where
  disable_all : GraphOptimizationLevel
  enable_basic : GraphOptimizationLevel
  enable_extended : GraphOptimizationLevel
  enable_layout : GraphOptimizationLevel
  enable_all : GraphOptimizationLevel

pub data ExecutionMode : Type 0 where
  sequential : ExecutionMode
  parallel : ExecutionMode

pub data OrtAllocatorType : Type 0 where
  invalid_allocator : OrtAllocatorType
  device_allocator : OrtAllocatorType
  arena_allocator : OrtAllocatorType
  read_only_allocator : OrtAllocatorType

pub data OrtMemType : Type 0 where
  cpu_input : OrtMemType
  cpu_output : OrtMemType
  default_memory : OrtMemType

pub data OrtMemoryInfoDeviceType : Type 0 where
  cpu : OrtMemoryInfoDeviceType
  gpu : OrtMemoryInfoDeviceType
  fpga : OrtMemoryInfoDeviceType
  npu : OrtMemoryInfoDeviceType
