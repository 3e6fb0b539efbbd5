-- ===== src/Go/Runtime/Owned/Open.antt =====
-- `Open` of runtime.go returns a runtime that owns its library, or an error and nothing.
use onnxcraft.Common.{
  zero, suc, ◌≡◌, refl, subst, inl, inr, ℤ, pos, negsuc, Bool-cases, String, List, [], ◌∷◌, Option,
  none, some, arith,
}
use onnxcraft.Native.Ledger.{Kind, Resource, resource}
use onnxcraft.Native.Machine.{World, M, pure, ◌>>=◌, deref}
use onnxcraft.Native.Rules.{
  Ensures, ensures, bind, Holds, Holds-frame, Holds-unframe, Same-refl, Same-append_comm,
}
use onnxcraft.Native.Calls.{reading-Holds}
use onnxcraft.Ort.Enums.{OrtErrorCode, error_code_value}
use onnxcraft.Bridge.Open.{OpenResult, Text}
use onnxcraft.Bridge.Open.Owned.{runtime_owned}
use onnxcraft.Bridge.Open.Correct.{IsRefusal, text_owned, Opened, opened, refused}
use onnxcraft.Bridge.Interface.{Bridge}
use onnxcraft.Bridge.Interface.Laws.{Handle, the_runtime, IsBridge}
use onnxcraft.Go.Result.{Result, good, bad}
use onnxcraft.Go.Cgo.{Cgo, absolute}
use onnxcraft.Go.Runtime.{
  GoError, Runtime, first_reference, is_bad_path, take_message, opened_with, open_absolute,
  open_runtime,
}
use onnxcraft.Go.Runtime.Owned.Options.{c_string-Holds, c_free-Holds}

-- How `Open` ends.
pub data RuntimeOpened {S : Type 0} (base : List Resource)
    : Result GoError Runtime → World S → Type 0 where
  runtime_opened :
      {h : Handle} {w : World S}
      → Holds base (runtime_owned (the_runtime h) []) w
      → RuntimeOpened base (good (first_reference (the_runtime h) h.version)) w
  runtime_refused : {e : GoError} {w : World S} → Holds base [] w → RuntimeOpened base (bad e) w

-- Only `ORT_OK` is 0.
error_code_value-zero : (e : OrtErrorCode) → error_code_value e ≡ 0 → e ≡ OrtErrorCode.ok
unfolding error_code_value
error_code_value-zero OrtErrorCode.ok z = refl
error_code_value-zero OrtErrorCode.fail z = absurd (omega arith)
error_code_value-zero OrtErrorCode.invalid_argument z = absurd (omega arith)
error_code_value-zero OrtErrorCode.no_suchfile z = absurd (omega arith)
error_code_value-zero OrtErrorCode.no_model z = absurd (omega arith)
error_code_value-zero OrtErrorCode.engine_error z = absurd (omega arith)
error_code_value-zero OrtErrorCode.runtime_exception z = absurd (omega arith)
error_code_value-zero OrtErrorCode.invalid_protobuf z = absurd (omega arith)
error_code_value-zero OrtErrorCode.model_loaded z = absurd (omega arith)
error_code_value-zero OrtErrorCode.not_implemented z = absurd (omega arith)
error_code_value-zero OrtErrorCode.invalid_graph z = absurd (omega arith)
error_code_value-zero OrtErrorCode.ep_fail z = absurd (omega arith)
error_code_value-zero OrtErrorCode.model_load_canceled z = absurd (omega arith)
error_code_value-zero OrtErrorCode.model_requires_compilation z = absurd (omega arith)
error_code_value-zero OrtErrorCode.not_found z = absurd (omega arith)
error_code_value-zero OrtErrorCode.device_reset z = absurd (omega arith)

module _ {S : Type 0} (cgo : Cgo S) {c : Bridge S} {Code : OrtErrorCode → Type 0}
    (laws : IsBridge S c Code) (never_ok : ¬ Code OrtErrorCode.ok) (base : List Resource) where
  take_message-Opened :
      (f : String → GoError) (error : Option Text) {w : World S}
      → Holds base (text_owned error) w
      → Ensures (RuntimeOpened base) (take_message cgo c f error w)
  unfolding take_message
  take_message-Opened f none held = ensures (runtime_refused held)
  take_message-Opened f (some t) held =
      bind (c_free-Holds cgo t.block [] held (Same-refl _))
        λ _ w₁ held₁. ensures (runtime_refused held₁)

  refused_with :
      (code : ℤ) (error : Option Text) {w : World S}
      → IsRefusal Code code
      → Holds base (text_owned error) w
      → Ensures
          (RuntimeOpened base)
          (opened_with cgo c (record { code = code; out = none; error = error }) w)
  unfolding opened_with
  refused_with (pos zero) error (inl e) held = absurd cc
  refused_with (pos zero) error (inr (e, allowed, same)) held =
      let zero_value : error_code_value e ≡ 0 = cc in
      absurd (never_ok (subst Code (error_code_value-zero e zero_value) allowed))
  refused_with (pos (suc n)) error is held = take_message-Opened (GoError.native (suc n)) error held
  refused_with (negsuc n) error is held = take_message-Opened GoError.open_failed error held

  opened_with-Opened :
      (r : OpenResult) {w : World S}
      → Opened Code base r w
      → Ensures (RuntimeOpened base) (opened_with cgo c r w)
  unfolding opened_with deref
  opened_with-Opened r (opened {p} {l} {env} {memory} {allocator} {version} held) = ensures (
      runtime_opened
        {h = record {
          self = p;
          library = l;
          env = env;
          memory = memory;
          allocator = allocator;
          version = version;
        }}
        held)
  opened_with-Opened r (refused {code} {error} is held) = refused_with code error is held

-- The copy of the path, which is freed at the end.
unframed :
    {S : Type 0} (base : List Resource) (copy : Resource) (m : M S (Unit {0}))
    (e : Result GoError Runtime) {w : World S}
    → RuntimeOpened (copy ∷ base) e w
    → ((rest : List Resource) (w' : World S)
        → Holds base (copy ∷ rest) w'
        → Ensures (λ _ w''. Holds base rest w'') (m w'))
    → Ensures (RuntimeOpened base) ((m >>= λ _. pure e) w)
unframed base copy m e (runtime_opened {h} held) go =
    bind
      (go (runtime_owned (the_runtime h) []) _
        (Holds-unframe (copy ∷ []) held (Same-append_comm _ (copy ∷ []))))
      λ _ w₁ held₁. ensures (runtime_opened held₁)
unframed base copy m e (runtime_refused held) go =
    bind (go [] _ (Holds-unframe (copy ∷ []) held (Same-refl _)))
      λ _ w₁ held₁. ensures (runtime_refused held₁)

module _ {S : Type 0} (cgo : Cgo S) {c : Bridge S} {Code : OrtErrorCode → Type 0}
    (laws : IsBridge S c Code) (never_ok : ¬ Code OrtErrorCode.ok) (base : List Resource) where
  open_absolute-Opened :
      (path : Result String String) {w : World S}
      → Holds base [] w
      → Ensures (RuntimeOpened base) (open_absolute cgo c path w)
  unfolding open_absolute
  open_absolute-Opened (bad message) held = ensures (runtime_refused held)
  open_absolute-Opened (good path) held = bind (c_string-Holds cgo path held) λ p w₁ held₁.
      let copy = resource Kind.heap_block p in
      bind (laws.oc_open-Opened (copy ∷ base) path (Holds-frame (copy ∷ []) held₁ (Same-refl [])))
        λ r w₂ x. bind (opened_with-Opened cgo laws never_ok (copy ∷ base) r x) λ e w₃ y.
          unframed base copy _ e y λ rest w' held'. c_free-Holds cgo p rest held' (Same-refl _)

  -- `Open`, for every path, where no status of ONNX Runtime has the code `ORT_OK`: it returns without
  -- a fault either a runtime with one reference, whose library's handles are all that is newly live, or
  -- an error, and then nothing is newly live: neither the copy of the path nor the error's text.
  pub open_runtime-RuntimeOpened :
      (path : String) {w : World S}
      → Holds base [] w
      → Ensures (RuntimeOpened base) (open_runtime cgo c path w)
  unfolding open_runtime absolute
  open_runtime-RuntimeOpened path held = elim (Bool-cases (is_bad_path path)) [
    | inl e ↦ rw e (ensures (runtime_refused held))
    | inr e ↦ rw e (
        bind (reading-Holds [] (cgo.abs path) held tt)
          λ path' w₁ held₁. open_absolute-Opened path' held₁)
  ]
