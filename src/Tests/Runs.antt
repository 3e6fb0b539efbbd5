-- ===== src/Tests/Runs.antt =====
-- The theorems on runs at concrete inputs.
use onnxcraft.Tests.Fixture.{Stage, api_failing, libc}
use onnxcraft.Common.{◌++◌, ℕ, refl, List, [], ◌∷◌, Option, none, some, arith}
use onnxcraft.Native.Ledger.{Kind, resource}
use onnxcraft.Native.Machine.{World}
use onnxcraft.Native.Rules.{Ensures, Holds}
use onnxcraft.Ort.Enums.{OnnxTensorElementDataType}
use onnxcraft.Bridge.Types.{OcSession, OcTensor}
use onnxcraft.Bridge.Run.{oc_outputs_free, zero_tensor}
use onnxcraft.Bridge.Run.Owned.{outputs_owned}
use onnxcraft.Bridge.Run.Finish.{Cleared, oc_outputs_free-Cleared}
use onnxcraft.Bridge.Run.Values.{open_session}
use onnxcraft.Tests.{library_heap, library_heap-live}

-- A session with one input and two outputs, and tensors for them.
abbrev run_session : OcSession
run_session = open_session 1 2 3 4 0 "1.29" 8 7 1 2 none [] none []

abbrev vector : OcTensor
vector = record {
  data_ptr = 40;
  shape = 41;
  bytes = 4;
  rank = 1;
  type = OnnxTensorElementDataType.float;
  value = none;
}

abbrev two_outputs : List OcTensor
two_outputs = zero_tensor ∷ zero_tensor ∷ []

abbrev value_or : Option OcTensor → Option ℕ
value_or none = none
value_or (some t) = t.value

-- Outputs of which the first holds a value.
abbrev held_outputs : List OcTensor
held_outputs = record vector { value = some 20 } ∷ zero_tensor ∷ []

abbrev outputs_world : World ℕ
outputs_world = record {
  heap = resource Kind.library_handle 2 ∷ resource Kind.value_handle 20 ∷ [];
  libs = 100;
}

outputs-Holds : Holds library_heap (outputs_owned held_outputs ++ []) outputs_world
outputs-Holds = record { live = λ q. omega arith }

oc_outputs_free-Cleared_example :
    Ensures
      (Cleared library_heap [] 2)
      (oc_outputs_free (api_failing Stage.nowhere) run_session held_outputs outputs_world)
oc_outputs_free-Cleared_example =
    oc_outputs_free-Cleared (api_failing Stage.nowhere) libc 1 2 3 4 0 "1.29" library_heap-live
      run_session held_outputs [] refl refl outputs-Holds
