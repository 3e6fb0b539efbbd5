-- ===== src/Bridge/Interface/Laws.antt =====
-- What the Go package relies on, for the functions that runtime.go and session.go call.
use onnxcraft.Common.{◌++◌, ℕ, ◌≤◌, ◌≡◌, length, String, List, [], ◌∷◌, Option, some}
use onnxcraft.Native.Ledger.{Kind, Resource, resource, count}
use onnxcraft.Native.Machine.{World, Reply}
use onnxcraft.Native.Rules.{
  Ensures, Holds, Same, Answered, new_handle, nothing_new, Live, opt_owned,
}
use onnxcraft.Ort.Enums.{OrtErrorCode}
use onnxcraft.Bridge.Types.{OcRuntime, OcSession, OcOptions, OcTensor}
use onnxcraft.Bridge.Open.Owned.{runtime_owned}
use onnxcraft.Bridge.Open.Correct.{ready_runtime, Opened}
use onnxcraft.Bridge.Session.Owned.{session_owned}
use onnxcraft.Bridge.Options.Correct.{IsLevel}
use onnxcraft.Bridge.Load.Correct.{Loaded, LoadEnds}
use onnxcraft.Bridge.Run.Owned.{outputs_owned}
use onnxcraft.Bridge.Run.Collect.{Fresh}
use onnxcraft.Bridge.Run.Finish.{RunEnds, Cleared}
use onnxcraft.Bridge.Interface.{Bridge}

-- A runtime on which every call can be made, by its addresses.
pub record Handle : Type 0 where
  pub self : ℕ
  pub library : ℕ
  pub env : ℕ
  pub memory : ℕ
  pub allocator : ℕ
  pub version : String

abbrev pub the_runtime : Handle → OcRuntime
the_runtime h = ready_runtime h.self h.library h.env h.memory h.allocator h.version

abbrev pub LoadedOn : Handle → OcSession → Type 0
LoadedOn h = Loaded h.self h.library h.env h.memory h.allocator h.version

abbrev pub LoadEndsOn : {S : Type 0} → List Resource → Handle → Reply OcSession → World S → Type 0
LoadEndsOn base h = LoadEnds base h.self h.library h.env h.memory h.allocator h.version λ _. Unit

abbrev pub Served : List Resource → Handle → Type 0
Served base h = 1 ≤ count (resource Kind.library_handle h.library) base

abbrev pub HasOptions : List Resource → ℕ → Type 0
HasOptions base o = 1 ≤ count (resource Kind.session_options_handle o) base

abbrev pub HasRunOptions : List Resource → ℕ → Type 0
HasRunOptions base o = 1 ≤ count (resource Kind.run_options_handle o) base

-- What is live while a session runs, besides the library.
abbrev pub HasSession : List Resource → Handle → OcSession → Type 0
HasSession base h s =
    (1 ≤ count (resource Kind.memory_info_handle h.memory) base)
    × Live base [] (opt_owned Kind.session_handle s.handle)

abbrev pub HasGivenOptions : List Resource → Option ℕ → Type 0
HasGivenOptions base options = Live base [] (opt_owned Kind.run_options_handle options)

-- `Code` says which codes the statuses may have.
pub record IsBridge (S : Type 0) (c : Bridge S) (Code : OrtErrorCode → Type 0) : Type 0 where
  pub oc_open-Opened :
      (base : List Resource) (path : String) {w : World S}
      → Holds base [] w
      → Ensures (Opened Code base) (c.oc_open path w)
  pub oc_close-Holds :
      (base : List Resource) (h : Handle) (rest own : List Resource) {w : World S}
      → Holds base own w
      → Same own (runtime_owned (the_runtime h) rest)
      → Ensures (λ _ w'. Holds base rest w') (c.oc_close (some (the_runtime h)) w)
  pub oc_options_new-Answered :
      (base : List Resource) (h : Handle) (config : OcOptions) (own : List Resource) {w : World S}
      → Served base h
      → IsLevel config.optimization
      → Holds base own w
      → Ensures
          (Answered base (new_handle Kind.session_options_handle) own)
          (c.oc_options_new (the_runtime h) config w)
  pub oc_config-Answered :
      (base : List Resource) (h : Handle) (o : ℕ) (key value : String) (own : List Resource)
      {w : World S}
      → Served base h
      → HasOptions base o
      → Holds base own w
      → Ensures (Answered base nothing_new own) (c.oc_config (the_runtime h) o key value w)
  pub oc_provider-Answered :
      (base : List Resource) (h : Handle) (o : ℕ) (name : String) (entries : List (String × String))
      (own : List Resource) {w : World S}
      → Served base h
      → HasOptions base o
      → Holds base own w
      → Ensures (Answered base nothing_new own) (c.oc_provider (the_runtime h) o name entries w)
  pub oc_options_free-Holds :
      (base : List Resource) (h : Handle) (o : ℕ) (rest own : List Resource) {w : World S}
      → Served base h
      → Holds base own w
      → Same own (resource Kind.session_options_handle o ∷ rest)
      → Ensures (λ _ w'. Holds base rest w') (c.oc_options_free (the_runtime h) o w)
  pub oc_load-LoadEnds :
      (base : List Resource) (h : Handle) (path : Option String) (model size o : ℕ) {w : World S}
      → Served base h
      → 1 ≤ count (resource Kind.env_handle h.env) base
      → HasOptions base o
      → Holds base [] w
      → Ensures (LoadEndsOn base h) (c.oc_load (the_runtime h) path model size o w)
  pub oc_session_free-Holds :
      (base : List Resource) (h : Handle) (s : OcSession) (rest own : List Resource) {w : World S}
      → Served base h
      → LoadedOn h s
      → Holds base own w
      → Same own (session_owned s rest)
      → Ensures (λ _ w'. Holds base rest w') (c.oc_session_free (some s) w)
  pub oc_error_code-Holds :
      (base : List Resource) (h : Handle) (st : ℕ) (own : List Resource) {w : World S}
      → Served base h
      → Holds base (resource Kind.status_handle st ∷ own) w
      → Ensures
          (λ _ w'. Holds base (resource Kind.status_handle st ∷ own) w')
          (c.oc_error_code (the_runtime h) st w)
  pub oc_error_message-Holds :
      (base : List Resource) (h : Handle) (st : ℕ) (own : List Resource) {w : World S}
      → Served base h
      → Holds base (resource Kind.status_handle st ∷ own) w
      → Ensures
          (λ _ w'. Holds base (resource Kind.status_handle st ∷ own) w')
          (c.oc_error_message (the_runtime h) st w)
  pub oc_error_free-Holds :
      (base : List Resource) (h : Handle) (st : ℕ) (own : List Resource) {w : World S}
      → Served base h
      → Holds base (resource Kind.status_handle st ∷ own) w
      → Ensures (λ _ w'. Holds base own w') (c.oc_error_free (the_runtime h) st w)
  pub oc_run_options-Answered :
      (base : List Resource) (h : Handle) (own : List Resource) {w : World S}
      → Served base h
      → Holds base own w
      → Ensures
          (Answered base (new_handle Kind.run_options_handle) own)
          (c.oc_run_options (the_runtime h) w)
  pub oc_terminate-Holds :
      (base : List Resource) (h : Handle) (o : ℕ) (own : List Resource) {w : World S}
      → Served base h
      → HasRunOptions base o
      → Holds base own w
      → Ensures (λ _ w'. Holds base own w') (c.oc_terminate (the_runtime h) o w)
  pub oc_run_options_free-Holds :
      (base : List Resource) (h : Handle) (o : ℕ) (own : List Resource) {w : World S}
      → Served base h
      → Holds base (resource Kind.run_options_handle o ∷ own) w
      → Ensures (λ _ w'. Holds base own w') (c.oc_run_options_free (the_runtime h) o w)
  pub oc_run-RunEnds :
      (base : List Resource) (h : Handle) (s : OcSession) (options : Option ℕ)
      (inputs outputs : List OcTensor) {w : World S}
      → Served base h
      → LoadedOn h s
      → HasSession base h s
      → HasGivenOptions base options
      → length inputs ≡ s.inputs
      → length outputs ≡ s.outputs
      → Fresh 0 outputs
      → Holds base [] w
      → Ensures (RunEnds base s.outputs) (c.oc_run s options inputs outputs w)
  pub oc_run_into-RunEnds :
      (base : List Resource) (h : Handle) (s : OcSession) (options : Option ℕ)
      (inputs outputs : List OcTensor) {w : World S}
      → Served base h
      → LoadedOn h s
      → HasSession base h s
      → HasGivenOptions base options
      → length inputs ≡ s.inputs
      → length outputs ≡ s.outputs
      → Holds base [] w
      → Ensures (RunEnds base 0) (c.oc_run_into s options inputs outputs w)
  pub oc_outputs_free-Cleared :
      (base : List Resource) (h : Handle) (s : OcSession) (outputs : List OcTensor)
      (rest : List Resource) {w : World S}
      → Served base h
      → LoadedOn h s
      → length outputs ≡ s.outputs
      → Holds base (outputs_owned outputs ++ rest) w
      → Ensures (Cleared base rest s.outputs) (c.oc_outputs_free s outputs w)
