-- ===== src/Ort/Calls/Env.antt =====
-- OrtEnv, OrtMemoryInfo and the default allocator, which is shared and never released.
use onnxcraft.Common.{ℕ, String, [], ◌∷◌}
use onnxcraft.Native.Ledger.{Kind, resource}
use onnxcraft.Native.Machine.{M, Reply}
use onnxcraft.Native.Calls.{asking, creating, releasing}
use onnxcraft.Ort.Enums.{OrtLoggingLevel, OrtAllocatorType, OrtMemType}
use onnxcraft.Ort.Api.{OrtApi}

module _ {S : Type 0} (api : OrtApi S) (a : ℕ) where
  unfoldable pub create_env : OrtLoggingLevel → String → M S (Reply ℕ)
  create_env level logid =
      creating Kind.env_handle (resource Kind.library_handle a ∷ []) (api.create_env level logid)

  unfoldable pub release_env : ℕ → M S (Unit {0})
  release_env env =
      releasing Kind.env_handle env (resource Kind.library_handle a ∷ []) (api.release_env env)

  unfoldable pub disable_telemetry_events : ℕ → M S (Reply (Unit {0}))
  disable_telemetry_events env =
      asking (resource Kind.library_handle a ∷ resource Kind.env_handle env ∷ [])
        (api.disable_telemetry_events env)

  unfoldable pub create_cpu_memory_info : OrtAllocatorType → OrtMemType → M S (Reply ℕ)
  create_cpu_memory_info type mem_type =
      creating Kind.memory_info_handle (resource Kind.library_handle a ∷ [])
        (api.create_cpu_memory_info type mem_type)

  unfoldable pub release_memory_info : ℕ → M S (Unit {0})
  release_memory_info info =
      releasing Kind.memory_info_handle info (resource Kind.library_handle a ∷ [])
        (api.release_memory_info info)

  unfoldable pub get_allocator_with_default_options : M S (Reply ℕ)
  get_allocator_with_default_options =
      asking (resource Kind.library_handle a ∷ []) api.get_allocator_with_default_options

  unfoldable pub allocator_free : (allocator p : ℕ) → M S (Unit {0})
  allocator_free allocator p =
      releasing Kind.name_block p (resource Kind.library_handle a ∷ [])
        ((api.allocator_at allocator).free allocator p)
