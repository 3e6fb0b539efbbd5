-- ===== src/Bridge/Open/Ends.antt =====
-- How `oc_open` ends, from the call of `OrtGetApiBase` on.
use onnxcraft.Common.{
  ℕ, ◌≤◌, ℤ, pos, negsuc, ◌≡◌, refl, ◌⊎◌, inl, inr, Bool, true, false, List, [], ◌∷◌, ◌++◌, Option,
  none, some, String, arith,
}
use onnxcraft.Native.Ledger.{Kind, Resource, resource, count, one_self, count-append}
use onnxcraft.Native.Machine.{World, Run, done, and_then, deref}
use onnxcraft.Native.Rules.{mono, Ensures, ensures, bind, Holds, Same-front, Live, opt_owned}
use onnxcraft.Native.Calls.{
  reading, reading-answer, asking-Answered, creating-Answered, reading-Holds, allocating-Holds,
  releasing-Holds,
}
use onnxcraft.Native.Flow.{Exit, goto_fail, continue_with, Ends, goes_on, fails, then_check}
use onnxcraft.Ort.Enums.{OrtErrorCode, error_code_value}
use onnxcraft.Ort.Api.{OrtApi, Host}
use onnxcraft.Ort.Calls.{
  get_error_code, get_error_message, release_status, strdup, get_api_base, get_api,
  get_version_string,
}
use onnxcraft.Bridge.Types.{OcRuntime}
use onnxcraft.Bridge.Open.Close.{OpenResult, Text, text_at, copy_text, fail_open}
use onnxcraft.Bridge.Open.Init.{init_runtime}
use onnxcraft.Bridge.Open.Steps.{finish_open, ask_api, use_api, use_base}
use onnxcraft.Bridge.Open.Owned.{
  runtime_owned, bare_runtime, serving_runtime, Same-runtime_owned, library_live, close_bare,
  close_serving,
}

-- A runtime on which every call of the bridge can be made.
abbrev pub ready_runtime : (p l env memory allocator : ℕ) → String → OcRuntime
ready_runtime p l env memory allocator version =
    serving_runtime p l (some env) (some memory) (some allocator) (some version)

abbrev pub text_owned : Option Text → List Resource
text_owned none = []
text_owned (some t) = resource Kind.heap_block t.block ∷ []

-- The codes of a failed `oc_open`: -1, or the code of the status.
-- `Code` says which codes a status may have.
abbrev pub IsRefusal : (Code : OrtErrorCode → Type 0) → ℤ → Type 0
IsRefusal Code c = (c ≡ negsuc 0) ⊎ ((e : OrtErrorCode) × Code e × (c ≡ pos (error_code_value e)))

-- The codes that ONNX Runtime answers for its statuses.
abbrev pub CodeOf : {S : Type 0} → OrtApi S → OrtErrorCode → Type 0
CodeOf {S} api e = (st : ℕ) × (s : S) × (e ≡ (api.get_error_code st s).0)

-- How `oc_open` ends.
pub data Opened {S : Type 0} (Code : OrtErrorCode → Type 0) (base : List Resource)
    : OpenResult → World S → Type 0 where
  opened :
      {p l env memory allocator : ℕ} {version : String} {w : World S}
      → Holds base (runtime_owned (ready_runtime p l env memory allocator version) []) w
      → Opened Code base
          (record {
            code = pos 0;
            out = some (ready_runtime p l env memory allocator version);
            error = none;
          })
          w
  refused :
      {code : ℤ} {error : Option Text} {w : World S}
      → IsRefusal Code code
      → Holds base (text_owned error) w
      → Opened Code base (record { code = code; out = none; error = error }) w

-- The table of functions lies in the open library.
data Serving (l : ℕ) : OcRuntime → Type 0 where
  serving :
      {p : ℕ} {env memory allocator : Option ℕ} {version : Option String}
      → Serving l (serving_runtime p l env memory allocator version)

-- All the calls after `GetApi` have succeeded.
data Ready {S : Type 0} (base : List Resource) (a : Unit {0}) : OcRuntime → World S → Type 0 where
  ready :
      {p l env memory allocator : ℕ} {version : String} {w : World S}
      → Holds base (runtime_owned (ready_runtime p l env memory allocator version) []) w
      → Ready base a (ready_runtime p l env memory allocator version) w

module _ {S : Type 0} (api : OrtApi S) (host : Host S) {base : List Resource} where
  pub copy_text-Holds :
      (s : String) {own : List Resource} {w : World S}
      → Holds base own w
      → Ensures (λ e w'. Holds base (text_owned e ++ own) w') (copy_text api host s w)
  unfolding copy_text strdup
  copy_text-Holds s {own} h = bind (allocating-Holds [] Kind.heap_block _ h tt) go
    where
      go :
          (p : Option ℕ) (w : World S)
          → Holds base (opt_owned Kind.heap_block p ++ own) w
          → Ensures (λ e w'. Holds base (text_owned e ++ own) w') (done (text_at s p) w)
      go none w h = ensures h
      go (some p) w h = ensures h

  pub fail_open-Opened :
      (p : ℕ) (l : Option ℕ) (s : String) {w : World S}
      → Holds base (runtime_owned (bare_runtime p l) []) w
      → Ensures (Opened (CodeOf api) base) (fail_open api host (bare_runtime p l) s w)
  unfolding fail_open
  fail_open-Opened p l s h = bind (copy_text-Holds s h) λ e w₁ h₁.
      bind
        (close_bare api host p l (text_owned e) h₁
          (Same-runtime_owned (bare_runtime p l) (text_owned e)))
        λ _ w₂ h₂. ensures (refused (inl refl) h₂)

  code-Holds :
      (st : ℕ) (args : List Resource) {own : List Resource} {w : World S}
      → Holds base own w
      → Live base own args
      → Ensures (λ e w'. CodeOf api e × Holds base own w') (reading args (api.get_error_code st) w)
  code-Holds st args h alive =
      mono (reading-answer args (api.get_error_code st) h alive) λ e w₁ p. ((st, p.0.0, p.0.1), p.1)

  fail_status :
      (st p l : ℕ) (env memory allocator : Option ℕ) (version : Option String) {w : World S}
      → Holds base
          (resource Kind.status_handle st
            ∷ runtime_owned (serving_runtime p l env memory allocator version) [])
          w
      → Ensures
          (Opened (CodeOf api) base)
          (finish_open api host (goto_fail st (serving_runtime p l env memory allocator version)) w)
  unfolding finish_open deref get_error_code get_error_message release_status
  fail_status st p l env memory allocator version h =
      let lib = resource Kind.library_handle l in
      let stat = resource Kind.status_handle st in
      let r = serving_runtime p l env memory allocator version in
      let alive : Live base (stat ∷ runtime_owned r []) (lib ∷ stat ∷ []) =
        omega (arith, library_live p l env memory allocator version [], one_self stat) in
      bind (code-Holds st (lib ∷ stat ∷ []) h alive) λ code w₁ (code_of, h₁).
        bind (reading-Holds (lib ∷ stat ∷ []) _ h₁ alive) λ message w₂ h₂.
          bind (copy_text-Holds message h₂) λ e w₃ h₃.
            bind
              (releasing-Holds (lib ∷ []) Kind.status_handle st (runtime_owned r (text_owned e)) _
                h₃
                (omega (
                  arith,
                  library_live p l env memory allocator version [],
                  count-append lib (text_owned e) (stat ∷ runtime_owned r []),
                ))
                (Same-front stat (text_owned e) (runtime_owned r [])
                  (Same-runtime_owned r (text_owned e))))
              λ _ w₄ h₄.
                bind
                  (close_serving api host p l env memory allocator version (text_owned e) h₄
                    (record { counts = λ q. refl }))
                  λ _ w₅ h₅. ensures (refused (inr (code, code_of, refl)) h₅)

  init_runtime-Ends :
      (p l : ℕ) (version : String) {w : World S}
      → Holds base (runtime_owned (serving_runtime p l none none none (some version)) []) w
      → Ensures
          (Ends base (λ r. runtime_owned r []) (Serving l) (Ready base))
          (init_runtime api l (serving_runtime p l none none none (some version)) w)
  unfolding init_runtime continue_with
  init_runtime-Ends p l version h =
      let lib = resource Kind.library_handle l in
      then_check _ _ serving
        (creating-Answered (lib ∷ []) Kind.env_handle _ h (omega (arith, one_self lib)))
        λ env w₁ h₁.
          then_check _ _ serving
            (asking-Answered (lib ∷ resource Kind.env_handle env ∷ []) _ h₁
              (omega (arith, one_self lib, one_self (resource Kind.env_handle env))))
            λ _ w₂ h₂.
              then_check _ _ serving
                (creating-Answered (lib ∷ []) Kind.memory_info_handle _ h₂
                  (omega (arith, one_self lib)))
                λ memory w₃ h₃.
                  then_check _ _ serving
                    (asking-Answered (lib ∷ []) _ h₃ (omega (arith, one_self lib)))
                    λ allocator w₄ h₄. ensures (goes_on (ready h₄))

  finish_open-Opened :
      {l : ℕ} {r : Run S (Exit OcRuntime (Unit {0}))}
      → Ensures (Ends base (λ r. runtime_owned r []) (Serving l) (Ready base)) r
      → Ensures (Opened (CodeOf api) base) (and_then r (finish_open api host))
  unfolding finish_open
  finish_open-Opened (ensures (goes_on (ready h))) = ensures (opened h)
  finish_open-Opened (ensures (fails serving h)) = fail_status _ _ _ _ _ _ _ h

  use_api-Opened :
      (p l : ℕ) (supported : Bool) {w : World S}
      → Holds base (runtime_owned (bare_runtime p (some l)) []) w
      → Ensures
          (Opened (CodeOf api) base)
          (use_api api host (bare_runtime p (some l)) l supported w)
  unfolding use_api get_version_string
  use_api-Opened p l false h = fail_open-Opened p (some l) _ h
  use_api-Opened p l true h =
      let lib = resource Kind.library_handle l in
      bind (reading-Holds (lib ∷ []) _ h (omega (arith, one_self lib)))
        λ version w₁ h₁. finish_open-Opened (init_runtime-Ends p l version h₁)

  ask_api-Holds :
      (l : ℕ) (given : Bool) {own : List Resource} {w : World S}
      → Holds base own w
      → 1 ≤ count (resource Kind.library_handle l) own
      → Ensures (λ _ w'. Holds base own w') (ask_api api host l given w)
  unfolding ask_api get_api
  ask_api-Holds l false h alive = ensures h
  ask_api-Holds l true h alive =
      reading-Holds (resource Kind.library_handle l ∷ []) _ h (omega arith)

  pub use_base-Opened :
      (p l : ℕ) (exported : Bool) {w : World S}
      → Holds base (runtime_owned (bare_runtime p (some l)) []) w
      → Ensures
          (Opened (CodeOf api) base)
          (use_base api host (bare_runtime p (some l)) l exported w)
  unfolding use_base get_api_base
  use_base-Opened p l false h = fail_open-Opened p (some l) _ h
  use_base-Opened p l true h =
      let lib = resource Kind.library_handle l in
      bind (reading-Holds (lib ∷ []) _ h (omega (arith, one_self lib))) λ given w₁ h₁.
        bind (ask_api-Holds l given h₁ (omega (arith, one_self lib)))
          λ supported w₂ h₂. use_api-Opened p l supported h₂
