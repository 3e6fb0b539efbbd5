-- ===== src/Ort/Calls/Provider.antt =====
-- Execution providers. The parallel arrays of keys and values are one list of pairs.
use onnxcraft.Common.{ℕ, String, List, [], ◌∷◌}
use onnxcraft.Native.Ledger.{Kind, resource}
use onnxcraft.Native.Machine.{M, Reply}
use onnxcraft.Native.Calls.{asking, creating, releasing}
use onnxcraft.Ort.Api.{OrtApi}

module _ {S : Type 0} (api : OrtApi S) (a : ℕ) where
  unfoldable pub create_cuda_provider_options : M S (Reply ℕ)
  create_cuda_provider_options =
      creating Kind.cuda_options_handle (resource Kind.library_handle a ∷ [])
        api.create_cuda_provider_options

  unfoldable pub update_cuda_provider_options : ℕ → List (String × String) → M S (Reply (Unit {0}))
  update_cuda_provider_options p entries =
      asking (resource Kind.library_handle a ∷ resource Kind.cuda_options_handle p ∷ [])
        (api.update_cuda_provider_options p entries)

  unfoldable pub append_cuda : (options p : ℕ) → M S (Reply (Unit {0}))
  append_cuda o p =
      asking
        (resource Kind.library_handle a
          ∷ resource Kind.session_options_handle o
          ∷ resource Kind.cuda_options_handle p
          ∷ [])
        (api.append_cuda o p)

  unfoldable pub release_cuda_provider_options : ℕ → M S (Unit {0})
  release_cuda_provider_options p =
      releasing Kind.cuda_options_handle p (resource Kind.library_handle a ∷ [])
        (api.release_cuda_provider_options p)

  unfoldable pub create_tensorrt_provider_options : M S (Reply ℕ)
  create_tensorrt_provider_options =
      creating Kind.tensorrt_options_handle (resource Kind.library_handle a ∷ [])
        api.create_tensorrt_provider_options

  unfoldable pub update_tensorrt_provider_options :
      ℕ → List (String × String) → M S (Reply (Unit {0}))
  update_tensorrt_provider_options p entries =
      asking (resource Kind.library_handle a ∷ resource Kind.tensorrt_options_handle p ∷ [])
        (api.update_tensorrt_provider_options p entries)

  unfoldable pub append_tensorrt : (options p : ℕ) → M S (Reply (Unit {0}))
  append_tensorrt o p =
      asking
        (resource Kind.library_handle a
          ∷ resource Kind.session_options_handle o
          ∷ resource Kind.tensorrt_options_handle p
          ∷ [])
        (api.append_tensorrt o p)

  unfoldable pub release_tensorrt_provider_options : ℕ → M S (Unit {0})
  release_tensorrt_provider_options p =
      releasing Kind.tensorrt_options_handle p (resource Kind.library_handle a ∷ [])
        (api.release_tensorrt_provider_options p)

  unfoldable pub append_openvino : ℕ → List (String × String) → M S (Reply (Unit {0}))
  append_openvino o entries =
      asking (resource Kind.library_handle a ∷ resource Kind.session_options_handle o ∷ [])
        (api.append_openvino o entries)

  unfoldable pub append_execution_provider :
      ℕ → String → List (String × String) → M S (Reply (Unit {0}))
  append_execution_provider o name entries =
      asking (resource Kind.library_handle a ∷ resource Kind.session_options_handle o ∷ [])
        (api.append_execution_provider o name entries)
