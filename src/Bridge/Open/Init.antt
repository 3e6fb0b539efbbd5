-- ===== src/Bridge/Open/Init.antt =====
-- The part of `oc_open` in which each call runs only if the one before gave no status.
use onnxcraft.Common.{ℕ, some}
use onnxcraft.Native.Flow.{Flow, ◌>>=◌, ◌>>◌, check, assign}
use onnxcraft.Ort.Enums.{OrtLoggingLevel, OrtAllocatorType, OrtMemType}
use onnxcraft.Ort.Api.{OrtApi}
use onnxcraft.Ort.Calls.{
  create_env, disable_telemetry_events, create_cpu_memory_info, get_allocator_with_default_options,
}
use onnxcraft.Bridge.Types.{OcRuntime}

module _ {S : Type 0} (api : OrtApi S) where
  unfoldable pub init_runtime : (a : ℕ) → Flow S OcRuntime (Unit {0})
  unfolding create_env disable_telemetry_events create_cpu_memory_info
      get_allocator_with_default_options
  init_runtime a = do
    env ← check (create_env api a OrtLoggingLevel.warning "onnxcraft")
    assign λ r. record r { env = some env }
    check (disable_telemetry_events api a env)
    memory ←
        check
          (create_cpu_memory_info api a OrtAllocatorType.arena_allocator OrtMemType.default_memory)
    assign λ r. record r { memory = some memory }
    allocator ← check (get_allocator_with_default_options api a)
    assign λ r. record r { allocator = some allocator }
