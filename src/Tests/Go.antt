-- ===== src/Tests/Go.antt =====
-- The theorems on the Go package at concrete inputs, over the bridge on the libraries of the fixture.
use onnxcraft.Tests.Fixture.{Stage, api_failing, libc}
use onnxcraft.Common.{ℕ, ◌+◌, pos, ◌≡◌, refl, ◌↔◌, true, List, [], ◌∷◌, none, arith, length}
use onnxcraft.Native.Machine.{World}
use onnxcraft.Native.Rules.{Ensures, Holds, Holds-frame, Same-refl}
use onnxcraft.Bridge.Types.{OcOptions}
use onnxcraft.Bridge.Open.Owned.{runtime_owned}
use onnxcraft.Bridge.Interface.{Bridge}
use onnxcraft.Bridge.Interface.Laws.{Handle, the_runtime, IsBridge}
use onnxcraft.Bridge.Interface.Implementation.{bridge, bridge-IsBridge}
use onnxcraft.Go.Result.{good}
use onnxcraft.Go.Cgo.{Cgo}
use onnxcraft.Go.Tensor.{Element, Tensor, new_tensor, tensor_size, element_type, data_type_size}
use onnxcraft.Go.Tensor.Bounds.{IsSize, tensor_size_lem}
use onnxcraft.Go.Tensor.Typed.{Reads, new_tensor-Reads}
use onnxcraft.Go.Runtime.{
  SessionOptions, Provider, Shared, Call, loading, closing, closing_session, close_all, steps,
  first_reference, open_runtime, load_session, add_config, add_providers, oc_options_of,
}
use onnxcraft.Ort.Enums.{OrtErrorCode}
use onnxcraft.Bridge.Open.Correct.{CodeOf}
use onnxcraft.Go.Runtime.Owned.Open.{RuntimeOpened, open_runtime-RuntimeOpened}
use onnxcraft.Go.Runtime.Owned.Options.{add_config-Holds, add_providers-Holds}
use onnxcraft.Go.Runtime.Owned.Checked.{Checked, oc_options_of_lem}
use onnxcraft.Go.Runtime.Owned.Describe.{SessionLoaded}
use onnxcraft.Go.Runtime.Owned.Load.{load_session-SessionLoaded}
use onnxcraft.Go.Runtime.Owned.Refs.{Balanced, in_use}
use onnxcraft.Go.Runtime.Owned.Schedule.{steps-Balanced, steps-close_all-Holds}
use onnxcraft.Go.Session.{context_ends, call_terminate, watch_run}
use onnxcraft.Go.Session.Watched.Run.{IsReleased, watch_run-Holds}
use onnxcraft.Tests.{
  empty_world, empty-Holds, opened_heap, opened_world, opened-Holds, library-live, env-live,
  options-live,
}

abbrev pub test_cgo : Cgo ℕ
test_cgo = record {
  c_string = λ text s. (s, s + 1);
  go_string = λ p s. ("input", s);
  free = λ p s. s;
  abs = λ path s. (good path, s);
  read_bytes = λ p s. (λ i. 0, s);
  read_dims = λ p s. (λ i. pos 1, s);
}

abbrev pub test_bridge : Bridge ℕ
test_bridge = bridge (api_failing Stage.nowhere) libc 0

pub test_bridge-IsBridge : IsBridge ℕ test_bridge (CodeOf (api_failing Stage.nowhere))
test_bridge-IsBridge = bridge-IsBridge (api_failing Stage.nowhere) libc 0

abbrev pub test_handle : Handle
test_handle = record { self = 1; library = 2; env = 3; memory = 4; allocator = 0; version = "1.29" }

abbrev cuda : Provider
cuda = record { name = "CUDA"; options = ("device_id", "0") ∷ [] }

abbrev pub test_options : SessionOptions
test_options = record {
  intra_op_threads = pos 4;
  inter_op_threads = pos 0;
  parallel = true;
  optimization = 2;
  providers = cuda ∷ [];
  config = ("session.intra_op.allow_spinning", "0") ∷ [];
}

-- What the library's runtime owns after `oc_open`.
abbrev pub runtime_world : World ℕ
runtime_world = record { heap = runtime_owned (the_runtime test_handle) []; libs = 100 }

pub runtime-Holds : Holds [] (runtime_owned (the_runtime test_handle) []) runtime_world
runtime-Holds = record { live = λ q. omega arith }

abbrev fresh_runtime : Shared
fresh_runtime = record { runtime = first_reference (the_runtime test_handle) "1.29"; sessions = [] }

-- Two models are loaded, and the runtime is closed before its sessions.
abbrev schedule : List Call
schedule =
    loading "model.onnx" 0 0 test_options
    ∷ loading "" 500 90 test_options
    ∷ closing
    ∷ closing_session 1
    ∷ closing_session 1
    ∷ []

steps-close_all-Holds_example :
    Ensures
      (λ s w.
        Ensures
          (λ s' w'. (s'.runtime.native ≡ none) × Holds [] [] w')
          (steps test_cgo test_bridge (close_all (length s.sessions)) s w))
      (steps test_cgo test_bridge schedule fresh_runtime runtime_world)
steps-close_all-Holds_example =
    steps-close_all-Holds test_cgo test_bridge-IsBridge [] test_handle "1.29" schedule runtime-Holds

fresh-Balanced : Balanced [] test_handle fresh_runtime runtime_world
fresh-Balanced = record {
  total = 1;
  counted = refl;
  refs = refl;
  all_loaded = tt;
  kept =
      in_use refl
        (Holds-frame (runtime_owned (the_runtime test_handle) []) runtime-Holds (Same-refl []));
}

steps-Balanced_example :
    Ensures
      (Balanced [] test_handle)
      (steps test_cgo test_bridge schedule fresh_runtime runtime_world)
steps-Balanced_example =
    steps-Balanced test_cgo test_bridge-IsBridge [] test_handle schedule fresh_runtime
      fresh-Balanced

load_session-SessionLoaded_example : Ensures (SessionLoaded test_cgo opened_heap test_handle) (
    load_session test_cgo test_bridge
      (the_runtime test_handle)
      test_options
      "model.onnx"
      0
      0
      opened_world)
load_session-SessionLoaded_example =
    load_session-SessionLoaded test_cgo test_bridge-IsBridge opened_heap test_handle library-live
      env-live test_options "model.onnx" 0 0 opened-Holds

add_config-Holds_example :
    Ensures
      (λ _ w. Holds opened_heap [] w)
      (add_config test_cgo test_bridge (the_runtime test_handle) 5 test_options.config opened_world)
add_config-Holds_example =
    add_config-Holds test_cgo test_bridge-IsBridge opened_heap test_handle 5 library-live
      options-live test_options.config opened-Holds

add_providers-Holds_example :
    Ensures
      (λ _ w. Holds opened_heap [] w)
      (add_providers test_cgo test_bridge
        (the_runtime test_handle)
        5
        (cuda ∷ cuda ∷ [])
        opened_world)
add_providers-Holds_example =
    add_providers-Holds test_cgo test_bridge-IsBridge opened_heap test_handle 5 library-live
      options-live (cuda ∷ cuda ∷ []) opened-Holds

abbrev test_config : OcOptions
test_config = record {
  intra_threads = pos 4;
  inter_threads = pos 0;
  parallel = pos 1;
  optimization = pos 2;
}

oc_options_of_lem_example :
    (oc_options_of test_options ≡ good test_config) ↔ Checked test_options test_config
oc_options_of_lem_example = oc_options_of_lem test_options test_config

tensor_size_lem_example :
    (tensor_size (pos 2 ∷ pos 3 ∷ []) 4 ≡ good 6) ↔ IsSize (pos 2 ∷ pos 3 ∷ []) 4 6
tensor_size_lem_example = tensor_size_lem (pos 2 ∷ pos 3 ∷ []) 4 6

six-IsSize : IsSize (pos 2 ∷ pos 3 ∷ []) (data_type_size (element_type Element.float32)) 6
unfolding data_type_size element_type
six-IsSize = record {
  dims = 2 ∷ 3 ∷ [];
  natural = refl;
  supported = omega arith;
  elements = refl;
  fits = omega arith;
}

new_tensor-Reads_example :
    (t : Tensor ℕ) × (new_tensor Element.float32 (pos 2 ∷ pos 3 ∷ []) (1 ∷ 2 ∷ 3 ∷ 4 ∷ 5 ∷ 6 ∷ [])
      ≡ good t)
    × Reads Element.float32 (1 ∷ 2 ∷ 3 ∷ 4 ∷ 5 ∷ 6 ∷ []) t
new_tensor-Reads_example =
    new_tensor-Reads Element.float32 (pos 2 ∷ pos 3 ∷ []) (1 ∷ 2 ∷ 3 ∷ 4 ∷ 5 ∷ 6 ∷ []) six-IsSize

-- The context ends during the run, and the callback has called `oc_terminate` when the run returns.
watch_run-Holds_example :
    Ensures
      (λ r w. IsReleased r × Holds opened_heap [] w)
      (watch_run test_bridge
        (the_runtime test_handle)
        (context_ends ∷ call_terminate ∷ [])
        opened_world)
watch_run-Holds_example =
    watch_run-Holds test_bridge-IsBridge opened_heap test_handle library-live []
      (context_ends ∷ call_terminate ∷ []) opened-Holds

-- `ORT_FAIL` is the only code that the library answers.
never_ok : ¬ CodeOf (api_failing Stage.at_memory) OrtErrorCode.ok
never_ok (st, s, e) = absurd cc

open_runtime-RuntimeOpened_example : Ensures (RuntimeOpened []) (
    open_runtime test_cgo
      (bridge (api_failing Stage.at_memory) libc 0)
      "libonnxruntime.so"
      empty_world)
open_runtime-RuntimeOpened_example =
    open_runtime-RuntimeOpened test_cgo (bridge-IsBridge (api_failing Stage.at_memory) libc 0)
      never_ok [] "libonnxruntime.so" empty-Holds
