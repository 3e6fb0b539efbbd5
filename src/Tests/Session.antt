-- ===== src/Tests/Session.antt =====
-- The theorems on running sessions from Go at concrete inputs.
use onnxcraft.Common.{
  ℕ, zero, suc, ◌≡◌, ◌↔◌, refl, subst, pos, true, false, List, [], ◌∷◌, ◌++◌, Option, none, some,
  inl, arith, length,
}
use onnxcraft.Native.Machine.{Run, done, fault}
use onnxcraft.Native.Ledger.{one, Resource-discrete}
use onnxcraft.Native.Calls.{reading, creating, asking, releasing}
use onnxcraft.Native.Flow.{arrived, continue_with, answered, fail_if}
use onnxcraft.Bridge.Options.{oc_run_options, oc_terminate, oc_run_options_free}
use onnxcraft.Bridge.Run.{oc_run, not_cpu, free_outputs}
use onnxcraft.Native.Rules.{Ensures, Holds}
use onnxcraft.Ort.Enums.{element_data_type_value, OnnxTensorElementDataType}
use onnxcraft.Bridge.Types.{OcPort, OcSession, OcTensor}
use onnxcraft.Bridge.Run.Values.{open_session}
use onnxcraft.Bridge.Load.Progress.{nil, cons}
use onnxcraft.Bridge.Load.Round.{PortLoaded}
use onnxcraft.Bridge.Load.Correct.{loaded}
use onnxcraft.Bridge.Interface.Laws.{the_runtime, LoadedOn}
use onnxcraft.Go.Result.{good, bad}
use onnxcraft.Go.Tensor.{Tensor, data_type_size}
use onnxcraft.Go.Session.Disjoint.{IsPlaced}
use onnxcraft.Go.Runtime.{
  GoError, Session, TensorInfo, loading, closing, closing_session, close_all, first_reference,
  steps,
}
use onnxcraft.Go.Session.Operand.{Operand}
use onnxcraft.Go.Session.Context.{Context}
use onnxcraft.Go.Session.{check_operands, run_session}
use onnxcraft.Go.Session.Apart.{AllPlaced, Apart}
use onnxcraft.Go.Session.Checked.{check_operands_lem}
use onnxcraft.Go.Session.Ran.Layout.{AllZero}
use onnxcraft.Go.Session.Ran.Result.{Over, Usable, run_session-Over}
use onnxcraft.Go.Program.{Use, Request, calling, running, use_steps}
use onnxcraft.Go.Program.Owned.{use_steps-close_all-Holds}
use onnxcraft.Tests.{
  opened_heap, opened_world, opened-Holds, library-live, memory-live, session-live,
}
use onnxcraft.Tests.Go.{
  test_cgo, test_bridge, test_bridge-IsBridge, test_handle, test_options, runtime_world,
  runtime-Holds,
}

-- A scalar port, which `load` has named.
abbrev scalar : ℕ → OcPort
scalar name = record {
  name = some name;
  type = OnnxTensorElementDataType.float;
  shape = none;
  dims = none;
  rank = 0;
}

scalar-Loaded : (name : ℕ) → PortLoaded (scalar name) (some name)
scalar-Loaded name = record { named = (name, refl, refl); dimensioned = inl (refl, refl, refl) }

abbrev one_in_two_out : OcSession
one_in_two_out =
    open_session 1 2 3 4 0 "1.29" 8 7 1 2 (some 30) (scalar 32 ∷ scalar 33 ∷ scalar 34 ∷ [])
      (some 31) (some 32 ∷ some 33 ∷ some 34 ∷ [])

one_in_two_out-Loaded : LoadedOn test_handle one_in_two_out
one_in_two_out-Loaded =
    loaded (cons (scalar-Loaded 32) (cons (scalar-Loaded 33) (cons (scalar-Loaded 34) nil))) refl
      (omega arith) (omega arith)

abbrev float_info : TensorInfo
float_info = record { name = "x"; dtype = 1; shape = [] }

abbrev test_session : Session
test_session = record {
  native = some one_in_two_out;
  inputs = float_info ∷ [];
  outputs = float_info ∷ float_info ∷ [];
  gated = true;
}

test_session-Usable : Usable test_handle test_session one_in_two_out
test_session-Usable = record {
  native = refl;
  on = one_in_two_out-Loaded;
  as_inputs = refl;
  as_outputs = refl;
}

-- Four bytes at an address.
abbrev float_at : ℕ → Operand
float_at address = record { data_at = address; shape_at = 0; dims = []; count = 1; dtype = 1 }

-- A context that can be cancelled and has not ended.
abbrev test_context : Context ℕ
test_context = record { cancelable = true; err = λ s. (none, s); enter = λ s. (none, s) }

two-AllPlaced : AllPlaced ((float_at 100 ∷ []) ++ (float_at 104 ∷ float_at 108 ∷ []))
unfolding data_type_size
two-AllPlaced zero t e = let same : float_at 100 ≡ t = cc in subst IsPlaced same (omega arith)
two-AllPlaced (suc zero) t e = let same : float_at 104 ≡ t = cc in subst IsPlaced same (omega arith)
two-AllPlaced (suc (suc zero)) t e =
    let same : float_at 108 ≡ t = cc in subst IsPlaced same (omega arith)
two-AllPlaced (suc (suc (suc j))) t e = absurd cc

check_operands_lem_example :
    (check_operands test_session true (float_at 100 ∷ []) (float_at 104 ∷ float_at 108 ∷ [])
      ≡ good tt)
    ↔ ((length (float_at 100 ∷ []) ≡ length test_session.inputs)
        × (true ≡ true → length (float_at 104 ∷ float_at 108 ∷ []) ≡ length test_session.outputs)
        × Apart 1 (float_at 100 ∷ float_at 104 ∷ float_at 108 ∷ []))
check_operands_lem_example =
    check_operands_lem test_session true (float_at 100 ∷ []) (float_at 104 ∷ float_at 108 ∷ [])
      two-AllPlaced

-- Adjacent tensors are accepted, and an output that begins within its input is not.
adjacent_run :
    check_operands test_session true (float_at 100 ∷ []) (float_at 104 ∷ float_at 108 ∷ [])
    ≡ good tt
unfolding check_operands data_type_size
adjacent_run = refl

overlapping_run :
    check_operands test_session true (float_at 100 ∷ []) (float_at 103 ∷ float_at 108 ∷ [])
    ≡ bad (GoError.overlapping_output 0)
unfolding check_operands data_type_size
overlapping_run = refl

-- The context ends while the bridge runs.
run_session-Over_example : Ensures (Over opened_heap 2) (
    run_session test_cgo test_context test_bridge
      (some (the_runtime test_handle))
      test_session
      false
      (float_at 100 ∷ [])
      []
      0
      2
      []
      opened_world)
run_session-Over_example =
    run_session-Over test_cgo test_context test_bridge-IsBridge opened_heap test_handle library-live
      one_in_two_out one_in_two_out-Loaded
      (omega (arith, memory-live), (omega (arith, session-live), tt)) test_session
      test_session-Usable false (float_at 100 ∷ []) [] (λ _. refl) 0 2 [] tt opened-Holds

abbrev outcome_of : {S A : Type 0} → Run S (A × List OcTensor) → Option A
outcome_of (done x w) = some x.0
outcome_of fault = none

-- Both outputs are copied.
abbrev copied : Tensor ℕ
copied = record { data_at = 0 ∷ 0 ∷ 0 ∷ 0 ∷ []; dims = pos 1 ∷ []; count = 1; dtype = 1 }

outputs_run :
    outcome_of (
      run_session test_cgo test_context test_bridge
        (some (the_runtime test_handle))
        test_session
        false
        (float_at 100 ∷ [])
        []
        0
        2
        []
        opened_world)
    ≡ some (good (copied ∷ copied ∷ []))
unfolding run_session reading oc_run_options creating one Resource-discrete oc_run arrived
    continue_with answered asking fail_if not_cpu releasing oc_terminate element_data_type_value
    free_outputs oc_run_options_free
outputs_run = refl

-- Two models are loaded and run, with and without outputs of the caller, before and after they are
-- closed.
abbrev new_request : Request ℕ
new_request = record {
  context = test_context;
  inputs = float_at 100 ∷ [];
  into = none;
  kept = true;
  before = 0;
  after = 2;
}

abbrev program_uses : List (Use ℕ)
program_uses =
    calling (loading "model.onnx" 0 0 test_options)
    ∷ calling (loading "" 500 90 test_options)
    ∷ running 0 new_request
    ∷ running 1 (record new_request { into = some (float_at 104 ∷ float_at 108 ∷ []) })
    ∷ calling closing
    ∷ running 1 new_request
    ∷ calling (closing_session 1)
    ∷ running 1 (record new_request { kept = false })
    ∷ []

use_steps-close_all-Holds_example :
    Ensures
      (λ p w.
        AllZero p.pool
        × Ensures
            (λ s w'. (s.runtime.native ≡ none) × Holds [] [] w')
            (steps test_cgo test_bridge (close_all (length p.shared.sessions)) p.shared w))
      (use_steps test_cgo test_bridge program_uses
        (record {
          shared = record {
            runtime = first_reference (the_runtime test_handle) "1.29";
            sessions = [];
          };
          pool = [];
        })
        runtime_world)
use_steps-close_all-Holds_example =
    use_steps-close_all-Holds test_cgo test_bridge-IsBridge [] test_handle "1.29" program_uses
      runtime-Holds
