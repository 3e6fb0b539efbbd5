-- ===== src/Bridge/Interface/Implementation.antt =====
-- bridge.c is a bridge.
use onnxcraft.Common.{ℕ, List, [], Option, some, arith, length, ◌≡◌, refl, ◌++◌}
use onnxcraft.Native.Ledger.{Kind, Resource, resource, one_self}
use onnxcraft.Native.Machine.{World, deref}
use onnxcraft.Native.Rules.{Ensures, mono, Holds, Same, Same-refl}
use onnxcraft.Native.Calls.{asking-Answered, creating-Answered, reading-Holds, releasing-Holds}
use onnxcraft.Ort.Api.{OrtApi, Host}
use onnxcraft.Ort.Calls.{
  add_session_config_entry, release_session_options, get_error_code, get_error_message,
  release_status, create_run_options, release_run_options,
}
use onnxcraft.Bridge.Types.{OcSession, OcTensor}
use onnxcraft.Bridge.Open.{oc_open, oc_close}
use onnxcraft.Bridge.Open.Owned.{close_serving}
use onnxcraft.Bridge.Open.Correct.{CodeOf, oc_open-Opened}
use onnxcraft.Bridge.Options.{
  oc_options_new, oc_config, oc_options_free, oc_run_options, oc_terminate, oc_run_options_free,
  oc_error_code, oc_error_message, oc_error_free,
}
use onnxcraft.Bridge.Options.Correct.{oc_options_new-Answered, oc_terminate-Holds}
use onnxcraft.Bridge.Provider.{oc_provider}
use onnxcraft.Bridge.Provider.Correct.{oc_provider-Answered}
use onnxcraft.Bridge.Session.{oc_session_free}
use onnxcraft.Bridge.Session.Owned.{session_owned, oc_session_free-Holds}
use onnxcraft.Bridge.Load.{oc_load}
use onnxcraft.Bridge.Load.Correct.{loaded, LoadEnds-mono, oc_load-LoadEnds}
use onnxcraft.Bridge.Run.Owned.{outputs_owned}
use onnxcraft.Bridge.Run.Collect.{Fresh}
use onnxcraft.Bridge.Run.Finish.{RunEnds, Cleared, oc_outputs_free-Cleared}
use onnxcraft.Bridge.Run.Correct.{oc_run-RunEnds, oc_run_into-RunEnds}
use onnxcraft.Bridge.Run.{oc_run, oc_run_into, oc_outputs_free}
use onnxcraft.Bridge.Interface.{Bridge}
use onnxcraft.Bridge.Interface.Laws.{
  Handle, LoadedOn, Served, HasSession, HasGivenOptions, IsBridge,
}

module _ {S : Type 0} (api : OrtApi S) (host : Host S) (empty : ℕ) where
  abbrev pub bridge : Bridge S
  bridge = record {
    oc_open = oc_open api host;
    oc_close = oc_close api host;
    oc_options_new = oc_options_new api;
    oc_config = oc_config api;
    oc_provider = oc_provider api;
    oc_options_free = oc_options_free api;
    oc_load = oc_load api host;
    oc_session_free = oc_session_free api host;
    oc_run = oc_run api host empty;
    oc_run_into = oc_run_into api host empty;
    oc_outputs_free = oc_outputs_free api;
    oc_run_options = oc_run_options api;
    oc_terminate = oc_terminate api;
    oc_run_options_free = oc_run_options_free api;
    oc_error_code = oc_error_code api;
    oc_error_message = oc_error_message api;
    oc_error_free = oc_error_free api;
  }

  session_free-Holds :
      (base : List Resource) (h : Handle) (s : OcSession) (rest own : List Resource) {w : World S}
      → Served base h
      → LoadedOn h s
      → Holds base own w
      → Same own (session_owned s rest)
      → Ensures (λ _ w'. Holds base rest w') (oc_session_free api host (some s) w)
  session_free-Holds base h s rest own served
        (loaded {self} {h = handle} {inputs} {outputs} {pb} {nb} {ps} {ns} f e o fits) held same =
      oc_session_free-Holds api host h.self h.library h.env h.memory h.allocator h.version served
        self (some handle) inputs outputs (some pb) ps (some nb) ns rest (omega arith) held same

  run_loaded :
      (base : List Resource) (h : Handle) (s : OcSession) (options : Option ℕ)
      (ins outs : List OcTensor) {w : World S}
      → Served base h
      → LoadedOn h s
      → HasSession base h s
      → HasGivenOptions base options
      → length ins ≡ s.inputs
      → length outs ≡ s.outputs
      → Fresh 0 outs
      → Holds base [] w
      → Ensures (RunEnds base s.outputs) (oc_run api host empty s options ins outs w)
  run_loaded base h s options ins outs served
        (loaded {self} {h = handle} {inputs} {outputs} {pb} {nb} {ps} {ns} f e o fits) has given
        reads exact fresh held =
      oc_run-RunEnds h.self h.library h.env h.memory h.allocator h.version self handle inputs
        outputs (some pb) ps (some nb) ns api host empty options (omega (arith, fits)) served has.0
        (omega (arith, has.1)) given ins outs reads exact fresh held

  run_into_loaded :
      (base : List Resource) (h : Handle) (s : OcSession) (options : Option ℕ)
      (ins outs : List OcTensor) {w : World S}
      → Served base h
      → LoadedOn h s
      → HasSession base h s
      → HasGivenOptions base options
      → length ins ≡ s.inputs
      → length outs ≡ s.outputs
      → Holds base [] w
      → Ensures (RunEnds base 0) (oc_run_into api host empty s options ins outs w)
  run_into_loaded base h s options ins outs served
        (loaded {self} {h = handle} {inputs} {outputs} {pb} {nb} {ps} {ns} f e o fits) has given
        reads exact held =
      oc_run_into-RunEnds h.self h.library h.env h.memory h.allocator h.version self handle inputs
        outputs (some pb) ps (some nb) ns api host empty options (omega (arith, fits)) served has.0
        (omega (arith, has.1)) given ins outs reads exact held

  outputs_free_loaded :
      (base : List Resource) (h : Handle) (s : OcSession) (outs : List OcTensor)
      (rest : List Resource) {w : World S}
      → Served base h
      → LoadedOn h s
      → length outs ≡ s.outputs
      → Holds base (outputs_owned outs ++ rest) w
      → Ensures (Cleared base rest s.outputs) (oc_outputs_free api s outs w)
  outputs_free_loaded base h s outs rest served (loaded f e o fits) exact held =
      oc_outputs_free-Cleared api host h.self h.library h.env h.memory h.allocator h.version served
        s outs rest refl exact held

  -- bridge.c, on every ONNX Runtime and C library, fulfils the laws of the interface that the Go package
  -- relies on: how each function of bridge.h that runtime.go and session.go call uses, takes and hands
  -- out what is live.
  pub bridge-IsBridge : IsBridge S bridge (CodeOf api)
  unfolding oc_config oc_options_free oc_run_options oc_run_options_free oc_error_code
      oc_error_message oc_error_free deref add_session_config_entry release_session_options
      create_run_options release_run_options get_error_code get_error_message release_status
  bridge-IsBridge = record {
    oc_open-Opened = λ base path {w} held. oc_open-Opened api host path held;
    oc_close-Holds = λ base h rest own {w} held s.
        close_serving api host h.self h.library (some h.env) (some h.memory) (some h.allocator)
          (some h.version) rest held s;
    oc_options_new-Answered = λ base h config own {w} served small held.
        oc_options_new-Answered api h.self h.library h.env h.memory h.allocator h.version config own
          served small held;
    oc_config-Answered =
        λ base h o key value own {w} served has held. asking-Answered _ _ held (omega arith);
    oc_provider-Answered = λ base h o name entries own {w} served has held.
        oc_provider-Answered api h.self h.library h.env h.memory h.allocator h.version o name
          entries own served has held;
    oc_options_free-Holds = λ base h o rest own {w} served held s.
        releasing-Holds _ Kind.session_options_handle o rest _ held (omega arith) s;
    oc_load-LoadEnds = λ base h path model size o {w} served alive has held.
        mono
          (oc_load-LoadEnds h.self h.library h.env h.memory h.allocator h.version api host served
            path model size o alive has held)
          λ _ _ e. LoadEnds-mono (λ _ _. tt) e;
    oc_session_free-Holds = λ base h s rest own {w} served is held same.
        session_free-Holds base h s rest own served is held same;
    oc_error_code-Holds = λ base h st own {w} served held.
        reading-Holds _ _ held (omega (arith, one_self (resource Kind.status_handle st)));
    oc_error_message-Holds = λ base h st own {w} served held.
        reading-Holds _ _ held (omega (arith, one_self (resource Kind.status_handle st)));
    oc_error_free-Holds = λ base h st own {w} served held.
        releasing-Holds _ Kind.status_handle st own _ held (omega arith) (Same-refl _);
    oc_run_options-Answered = λ base h own {w} served held.
        creating-Answered _ Kind.run_options_handle _ held (omega arith);
    oc_terminate-Holds = λ base h o own {w} served has held.
        oc_terminate-Holds api h.self h.library h.env h.memory h.allocator o h.version served has
          held;
    oc_run_options_free-Holds = λ base h o own {w} served held.
        releasing-Holds _ Kind.run_options_handle o own _ held (omega arith) (Same-refl _);
    oc_run-RunEnds = λ base h s options ins outs {w} served is has given reads e fresh held.
        run_loaded base h s options ins outs served is has given reads e fresh held;
    oc_run_into-RunEnds = λ base h s options ins outs {w} served is has given reads e held.
        run_into_loaded base h s options ins outs served is has given reads e held;
    oc_outputs_free-Cleared = λ base h s outs rest {w} served is e held.
        outputs_free_loaded base h s outs rest served is e held;
  }
