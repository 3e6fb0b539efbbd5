-- ===== src/Tests.antt =====
-- The theorems at concrete inputs, on the libraries of Tests/Fixture, and runs of the definitions.
mod Fixture
mod Runs
mod Go
mod Session
mod Windows
use Fixture.{Stage, api_failing, libc}
use onnxcraft.Common.{
  zero, suc, sym, ap, ◌++◌, ◌<◌, ◌*◌, ◌↔◌, false, ℕ, ◌+◌, ◌%◌, ◌^◌, ◌≤◌, ◌≡◌, refl, pos, negsuc,
  String, List, [], ◌∷◌, Option, none, some, arith, length,
}
use onnxcraft.Native.Ledger.{Kind, Resource, resource, count, one_self}
use onnxcraft.Native.Machine.{World, Run, done, fault, Reply, success, failure}
use onnxcraft.Native.Rules.{
  Ensures, ensures, Holds, Same, Same-refl, Answered, nothing_new, new_handle,
}
use onnxcraft.Native.Flow.{Ends}
use onnxcraft.Ort.Enums.{OnnxTensorElementDataType}
use onnxcraft.Bridge.Types.{OcRuntime, OcSession, OcPort, OcOptions, OcTensor}
use onnxcraft.Bridge.Open.{OpenResult, Text, oc_close}
use onnxcraft.Bridge.Open.Owned.{runtime_owned, serving_runtime, close_serving}
use onnxcraft.Bridge.Open.Correct.{ready_runtime, text_owned}
use onnxcraft.Bridge.Options.{oc_options_new, oc_terminate}
use onnxcraft.Bridge.Options.Correct.{oc_options_new-Answered, oc_terminate-Holds}
use onnxcraft.Bridge.Provider.{oc_provider}
use onnxcraft.Bridge.Provider.Correct.{oc_provider-Answered}
use onnxcraft.Bridge.Session.{oc_session_free}
use onnxcraft.Bridge.Session.Owned.{session_owned, oc_session_free-Holds}
use onnxcraft.Bridge.Load.{load_port}
use onnxcraft.Bridge.Load.{bad_counts, sizeof_port}
use onnxcraft.Bridge.Load.Metadata.{bad_counts_lem}
use onnxcraft.Bridge.Load.Round.{round_owned, RoundDone, start, load_port-Ends}
use onnxcraft.Bridge.Load.Answered.{PortAnswered}
use onnxcraft.Bridge.Run.{oc_run, oc_run_into, oc_outputs_free, zero_tensor}
use onnxcraft.Bridge.Run.Owned.{outputs_owned}
use onnxcraft.Bridge.Run.Finish.{RunEnds, Cleared, oc_outputs_free-Cleared}
use onnxcraft.Bridge.Run.Collect.{Fresh}
use onnxcraft.Bridge.Run.Values.{open_session}
use onnxcraft.Bridge.Run.Correct.{oc_run-RunEnds, oc_run_into-RunEnds}
use onnxcraft.Bridge.Lifecycle.{open_close, open_close-Holds, load_free, load_free-Answered}

-- A process that has opened nothing, and its next handle.
abbrev pub empty_world : World ℕ
empty_world = record { heap = []; libs = 100 }

-- What is live after `oc_open` and the creation of session and run options.
abbrev pub opened_heap : List Resource
opened_heap =
    resource Kind.library_handle 2
    ∷ resource Kind.env_handle 3
    ∷ resource Kind.session_options_handle 5
    ∷ resource Kind.run_options_handle 6
    ∷ resource Kind.session_handle 7
    ∷ resource Kind.memory_info_handle 4
    ∷ []

abbrev pub opened_world : World ℕ
opened_world = record { heap = opened_heap; libs = 100 }

pub empty-Holds : Holds [] [] empty_world
empty-Holds = record { live = λ q. refl }

pub opened-Holds : Holds opened_heap [] opened_world
opened-Holds = record { live = λ q. omega arith }

pub library-live : 1 ≤ count (resource Kind.library_handle 2) opened_heap
library-live = omega (arith, one_self (resource Kind.library_handle 2))

pub env-live : 1 ≤ count (resource Kind.env_handle 3) opened_heap
env-live = omega (arith, one_self (resource Kind.env_handle 3))

pub options-live : 1 ≤ count (resource Kind.session_options_handle 5) opened_heap
options-live = omega (arith, one_self (resource Kind.session_options_handle 5))

pub run_options-live : 1 ≤ count (resource Kind.run_options_handle 6) opened_heap
run_options-live = omega (arith, one_self (resource Kind.run_options_handle 6))

pub session-live : 1 ≤ count (resource Kind.session_handle 7) opened_heap
session-live = omega (arith, one_self (resource Kind.session_handle 7))

pub memory-live : 1 ≤ count (resource Kind.memory_info_handle 4) opened_heap
memory-live = omega (arith, one_self (resource Kind.memory_info_handle 4))

abbrev level_three : OcOptions
level_three = record {
  intra_threads = pos 2;
  inter_threads = pos 1;
  parallel = pos 1;
  optimization = pos 3;
}

open_close-Holds_example :
    Ensures
      (λ e w. Holds [] (text_owned e) w)
      (open_close (api_failing Stage.nowhere) libc "libonnxruntime.so" empty_world)
open_close-Holds_example =
    open_close-Holds (api_failing Stage.nowhere) libc "libonnxruntime.so" empty-Holds

abbrev test_runtime : OcRuntime
test_runtime = ready_runtime 1 2 3 4 0 "1.29"

oc_options_new-Answered_example :
    Ensures
      (Answered opened_heap (new_handle Kind.session_options_handle) [])
      (oc_options_new (api_failing Stage.at_options) test_runtime level_three opened_world)
oc_options_new-Answered_example =
    oc_options_new-Answered (api_failing Stage.at_options) 1 2 3 4 0 "1.29" level_three []
      library-live (omega arith) opened-Holds

oc_terminate-Holds_example :
    Ensures
      (λ _ w. Holds opened_heap [] w)
      (oc_terminate (api_failing Stage.at_terminate) test_runtime 6 opened_world)
oc_terminate-Holds_example =
    oc_terminate-Holds (api_failing Stage.at_terminate) 1 2 3 4 0 6 "1.29" library-live
      run_options-live opened-Holds

oc_provider-Answered_example : Ensures (Answered opened_heap nothing_new []) (
    oc_provider
      (api_failing Stage.at_cuda)
      test_runtime
      5
      "CUDA"
      (("device_id", "0") ∷ [])
      opened_world)
oc_provider-Answered_example =
    oc_provider-Answered (api_failing Stage.at_cuda) 1 2 3 4 0 "1.29" 5 "CUDA"
      (("device_id", "0") ∷ []) [] library-live options-live opened-Holds

load_free-Answered_example :
    Ensures (Answered opened_heap nothing_new []) (
      load_free
        (api_failing Stage.nowhere)
        libc
        test_runtime
        (some "model.onnx")
        0
        0
        5
        opened_world)
load_free-Answered_example =
    load_free-Answered (api_failing Stage.nowhere) libc 1 2 3 4 0 "1.29" library-live
      (some "model.onnx") 0 0 5 env-live options-live opened-Holds

load_port-Ends_example :
    Ensures
      (Ends opened_heap round_owned
        (λ _. Unit)
        (RoundDone opened_heap (PortAnswered (api_failing Stage.at_metadata) 7 0 1 1)))
      (load_port (api_failing Stage.at_metadata) libc 2 7 0 1 1 start opened_world)
load_port-Ends_example =
    load_port-Ends (api_failing Stage.at_metadata) libc 2 7 0 library-live session-live 1 1
      opened-Holds

-- A runtime that is complete but for the library's version, and what it owns.
abbrev closing_heap : List Resource
closing_heap = runtime_owned (serving_runtime 1 2 (some 3) (some 4) (some 0) none) []

abbrev closing_world : World ℕ
closing_world = record { heap = closing_heap; libs = 100 }

closing-Holds : Holds [] closing_heap closing_world
closing-Holds = record { live = λ q. omega arith }

close_serving_example :
    Ensures
      (λ _ w. Holds [] [] w)
      (oc_close
        (api_failing Stage.nowhere)
        libc
        (some (serving_runtime 1 2 (some 3) (some 4) (some 0) none))
        closing_world)
close_serving_example =
    close_serving (api_failing Stage.nowhere) libc 1 2 (some 3) (some 4) (some 0) none []
      closing-Holds (Same-refl closing_heap)

-- A session whose second port has no dimensions yet.
abbrev half_ports : List OcPort
half_ports =
    record {
      name = some 11;
      type = OnnxTensorElementDataType.float;
      shape = some 12;
      dims = some (pos 1 ∷ []);
      rank = 1;
    }
    ∷ record {
      name = some 13;
      type = OnnxTensorElementDataType.float;
      shape = none;
      dims = none;
      rank = 0;
    }
    ∷ []

abbrev half_session : OcSession
half_session = record {
  self = 8;
  runtime = test_runtime;
  handle = some 7;
  inputs = 1;
  outputs = 1;
  ports = some 9;
  port_array = half_ports;
  names = some 10;
  name_array = some 11 ∷ some 13 ∷ [];
}

abbrev pub library_heap : List Resource
library_heap = resource Kind.library_handle 2 ∷ []

abbrev half_world : World ℕ
half_world = record {
  heap = resource Kind.library_handle 2 ∷ session_owned half_session [];
  libs = 100;
}

half-Holds : Holds library_heap (session_owned half_session []) half_world
half-Holds = record { live = λ q. omega arith }

pub library_heap-live : 1 ≤ count (resource Kind.library_handle 2) library_heap
library_heap-live = omega (arith, one_self (resource Kind.library_handle 2))

oc_session_free-Holds_example :
    Ensures
      (λ _ w. Holds library_heap [] w)
      (oc_session_free (api_failing Stage.nowhere) libc (some half_session) half_world)
oc_session_free-Holds_example =
    oc_session_free-Holds (api_failing Stage.nowhere) libc 1 2 3 4 0 "1.29" library_heap-live 8
      (some 7) 1 1 (some 9) half_ports (some 10) (some 11 ∷ some 13 ∷ []) [] refl half-Holds
      (Same-refl (session_owned half_session []))

bad_counts_lem_example :
    (bad_counts 1 2 ((1 + 2) % 2 ^ 64) ≡ false) ↔ ((1 ≤ 2) × ((1 + 2) * sizeof_port < 2 ^ 64))
bad_counts_lem_example = bad_counts_lem 1 2 (omega arith) (omega arith)
