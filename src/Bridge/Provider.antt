-- ===== src/Bridge/Provider.antt =====
-- `oc_provider` of bridge.c: the parallel arrays of keys and values are one list of pairs.
pub mod Correct
use text.Mathlib.Text.{◌==◌}
use onnxcraft.Common.{ℕ, String, List, if◌then◌else◌}
use onnxcraft.Native.Machine.{M, Reply, success, failure, pure, ◌>>=◌, ◌>>◌, deref}
use onnxcraft.Ort.Api.{OrtApi}
use onnxcraft.Ort.Calls.{
  create_cuda_provider_options, update_cuda_provider_options, append_cuda,
  release_cuda_provider_options, create_tensorrt_provider_options, update_tensorrt_provider_options,
  append_tensorrt, release_tensorrt_provider_options, append_openvino, append_execution_provider,
}
use onnxcraft.Bridge.Types.{OcRuntime}

module _ {S : Type 0} (api : OrtApi S) (a o : ℕ) (entries : List (String × String)) where
  -- `if (!status) status = next;`
  unfoldable pub unless_failed : M S (Reply (Unit {0})) → Reply (Unit {0}) → M S (Reply (Unit {0}))
  unless_failed next (success _) = next
  unless_failed next (failure st) = pure (failure st)

  -- The options `p` are there exactly when the first call gave no status.
  unfoldable pub use_cuda : Reply ℕ → M S (Reply (Unit {0}))
  unfolding update_cuda_provider_options append_cuda release_cuda_provider_options
  use_cuda (failure st) = pure (failure st)
  use_cuda (success p) = do
    status ←
        (update_cuda_provider_options api a p entries >>= unless_failed (append_cuda api a o p))
    release_cuda_provider_options api a p
    pure status

  unfoldable pub provider_cuda : M S (Reply (Unit {0}))
  unfolding create_cuda_provider_options
  provider_cuda = do p ← create_cuda_provider_options api a; use_cuda p

  unfoldable pub use_tensorrt : Reply ℕ → M S (Reply (Unit {0}))
  unfolding update_tensorrt_provider_options append_tensorrt release_tensorrt_provider_options
  use_tensorrt (failure st) = pure (failure st)
  use_tensorrt (success p) = do
    status ←
        (update_tensorrt_provider_options api a p entries
          >>= unless_failed (append_tensorrt api a o p))
    release_tensorrt_provider_options api a p
    pure status

  unfoldable pub provider_tensorrt : M S (Reply (Unit {0}))
  unfolding create_tensorrt_provider_options
  provider_tensorrt = do p ← create_tensorrt_provider_options api a; use_tensorrt p

  unfoldable pub provider_by_name : String → M S (Reply (Unit {0}))
  unfolding append_openvino append_execution_provider
  provider_by_name name =
      if name == "CUDA"
      then provider_cuda
      else (if name == "TensorRT"
          then provider_tensorrt
          else (if name == "OpenVINO"
              then append_openvino api a o entries
              else append_execution_provider api a o name entries))

module _ {S : Type 0} (api : OrtApi S) where
  unfoldable pub oc_provider :
      OcRuntime → (o : ℕ) → String → List (String × String) → M S (Reply (Unit {0}))
  unfolding deref
  oc_provider r o name entries = do a ← deref r.api; provider_by_name api a o entries name
