-- ===== src/Bridge/Options/Correct.antt =====
-- Session options, run options and statuses are acquired and given back as the header documents.
use onnxcraft.Common.{
  ℕ, ℤ, pos, negsuc, zero, suc, ◌≤◌, ◌<◌, ◌≡◌, refl, List, [], ◌∷◌, ◌++◌, Option, none, some,
  String, arith, get_elem?,
}
use onnxcraft.Native.Ledger.{Kind, Resource, resource, count, one_self}
use onnxcraft.Native.Machine.{World, Run, and_then, deref, Reply}
use onnxcraft.Native.Rules.{
  Ensures, ensures, bind, Holds, Same-refl, Same-sym, Same-front, Live, Answered, succeeded, failed,
  new_handle, opt_owned, nothing_new, when_some-Holds,
}
use onnxcraft.Native.Calls.{asking-Answered, creating-Answered, releasing-Holds}
use onnxcraft.Native.Flow.{Exit, continue_with, Ends, goes_on, fails, then_check, then_plain}
use onnxcraft.Ort.Enums.{GraphOptimizationLevel}
use onnxcraft.Ort.Api.{OrtApi}
use onnxcraft.Ort.Calls.{release_session_options}
use onnxcraft.Bridge.Types.{OcOptions}
use onnxcraft.Bridge.Open.Correct.{ready_runtime}
use onnxcraft.Bridge.Options.Body.{levels, level_at, options_body}
use onnxcraft.Bridge.Options.Defs.{finish_options, oc_options_new, oc_terminate, drop_status}

levels-some : (i : ℕ) → i < 4 → (g : GraphOptimizationLevel) × (get_elem? levels i ≡ some g)
levels-some zero h = (GraphOptimizationLevel.enable_all, refl)
levels-some (suc zero) h = (GraphOptimizationLevel.disable_all, refl)
levels-some (suc (suc zero)) h = (GraphOptimizationLevel.enable_basic, refl)
levels-some (suc (suc (suc zero))) h = (GraphOptimizationLevel.enable_extended, refl)
levels-some (suc (suc (suc (suc i)))) h = absurd (omega arith)

-- One of the four optimization levels.
abbrev pub IsLevel : ℤ → Type 0
IsLevel (pos n) = n < 4
IsLevel (negsuc n) = ⊥

level_at-some : (i : ℤ) → IsLevel i → (g : GraphOptimizationLevel) × (level_at i ≡ some g)
level_at-some (pos n) h = levels-some n h
level_at-some (negsuc n) h = absurd h

module _ {S : Type 0} (api : OrtApi S) {base : List Resource} where
  deref-Ensures :
      {A : Type 0} {a : A} (o : Option A) {own : List Resource} {w : World S}
      → o ≡ some a
      → Holds base own w
      → Ensures (λ _ w'. Holds base own w') (deref o w)
  unfolding deref
  deref-Ensures none e h = cc
  deref-Ensures (some a) e h = ensures h

  module _ (l : ℕ) (own : List Resource)
      (alive : 1 ≤ count (resource Kind.library_handle l) base) where
    options_body-Ends :
        (config : OcOptions) {w : World S}
        → IsLevel config.optimization
        → Holds base own w
        → Ensures
            (Ends base
              (λ o. opt_owned Kind.session_options_handle o ++ own)
              (λ _. Unit)
              (λ o _ w'. Holds base (resource Kind.session_options_handle o ∷ own) w'))
            (options_body api l config none w)
    unfolding options_body continue_with
    options_body-Ends config small h =
        let lib = resource Kind.library_handle l in
        then_check _ _ tt
          (creating-Answered (lib ∷ []) Kind.session_options_handle _ h (omega arith))
          λ o w₁ h₁.
            let opts = resource Kind.session_options_handle o in
            let both = lib ∷ opts ∷ [] in
            let live : Live base (opts ∷ own) both = omega (arith, one_self opts) in
            then_check _ _ tt (asking-Answered both _ h₁ live) λ _ w₂ h₂.
              then_check _ _ tt (asking-Answered both _ h₂ live) λ _ w₃ h₃.
                then_check _ _ tt (asking-Answered both _ h₃ live) λ _ w₄ h₄.
                  then_plain _ _
                    (deref-Ensures (level_at config.optimization)
                      (level_at-some config.optimization small).1 h₄)
                    λ level w₅ h₅.
                      then_check _ _ tt (asking-Answered both _ h₅ live)
                        λ _ w₆ h₆. ensures (goes_on h₆)

    finish_options-Answered :
        {r : Run S (Exit (Option ℕ) ℕ)}
        → Ensures
            (Ends base
              (λ o. opt_owned Kind.session_options_handle o ++ own)
              (λ _. Unit)
              (λ o _ w'. Holds base (resource Kind.session_options_handle o ∷ own) w'))
            r
        → Ensures
            (Answered base (new_handle Kind.session_options_handle) own)
            (and_then r (finish_options api l))
    unfolding finish_options release_session_options
    finish_options-Answered (ensures (goes_on h)) = ensures (succeeded h)
    finish_options-Answered (ensures (fails {st} {l = o} i h)) =
        let lib = resource Kind.library_handle l in
        let stat = resource Kind.status_handle st in
        let opts = opt_owned Kind.session_options_handle o in
        bind
          (when_some-Holds Kind.session_options_handle o _ (stat ∷ own) h
            (Same-sym (Same-front stat opts own (Same-refl (opts ++ own))))
            λ p w₁ h₁.
              releasing-Holds (lib ∷ []) Kind.session_options_handle p _ _ h₁ (omega arith)
                (Same-refl _))
          λ _ w₂ h₂. ensures (failed h₂)

  -- On an open runtime, and for one of the four optimization levels, `oc_options_new` either
  -- returns no status and new session options, which are all that is newly live, or a status, and
  -- then the options that it may have created are released: only the status is newly live.
  pub oc_options_new-Answered :
      (p l env memory allocator : ℕ) (version : String) (config : OcOptions) (own : List Resource)
      {w : World S}
      → 1 ≤ count (resource Kind.library_handle l) base
      → IsLevel config.optimization
      → Holds base own w
      → Ensures
          (Answered base (new_handle Kind.session_options_handle) own)
          (oc_options_new api (ready_runtime p l env memory allocator version) config w)
  unfolding oc_options_new deref
  oc_options_new-Answered p l env memory allocator version config own alive small h =
      finish_options-Answered l own alive (options_body-Ends l own alive config small h)

  drop_status-Holds :
      (l : ℕ) {own : List Resource} {r : Run S (Reply (Unit {0}))}
      → 1 ≤ count (resource Kind.library_handle l) base
      → Ensures (Answered base nothing_new own) r
      → Ensures (λ _ w'. Holds base own w') (and_then r (drop_status api l))
  unfolding drop_status
  drop_status-Holds l alive (ensures (succeeded h)) = ensures h
  drop_status-Holds l alive (ensures (failed h)) =
      releasing-Holds (resource Kind.library_handle l ∷ []) Kind.status_handle _ _ _ h (omega arith)
        (Same-refl _)

  -- `oc_terminate` on live run options leaves the ledger as it was: a status that
  -- `RunOptionsSetTerminate` returns is released.
  pub oc_terminate-Holds :
      (p l env memory allocator options : ℕ) (version : String) {own : List Resource} {w : World S}
      → 1 ≤ count (resource Kind.library_handle l) base
      → 1 ≤ count (resource Kind.run_options_handle options) base
      → Holds base own w
      → Ensures
          (λ _ w'. Holds base own w')
          (oc_terminate api (ready_runtime p l env memory allocator version) options w)
  unfolding oc_terminate
  oc_terminate-Holds p l env memory allocator options version alive used h =
      drop_status-Holds l alive (
        asking-Answered
          (resource Kind.library_handle l ∷ resource Kind.run_options_handle options ∷ []) _ h
          (omega arith))
