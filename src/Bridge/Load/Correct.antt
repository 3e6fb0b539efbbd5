-- ===== src/Bridge/Load/Correct.antt =====
-- `oc_load` leaves behind either a loaded session that owns all that was acquired, or nothing but
-- the status.
use onnxcraft.Common.{
  ℕ, ◌+◌, ◌*◌, ◌%◌, ◌^◌, ◌≤◌, ◌<◌, ◌≡◌, refl, List, [], ◌∷◌, ◌++◌, Option, none, some, String,
  arith, length,
}
use onnxcraft.Native.Ledger.{Kind, Resource, resource, count, one_self}
use onnxcraft.Native.Machine.{World, Run, and_then, deref, Reply, success, failure}
use onnxcraft.Native.Rules.{
  Ensures, ensures, bind, Holds, Same-refl, Same-sym, Same-front, Live, opt_owned, when_some-Holds,
}
use onnxcraft.Native.Calls.{asking-Replied, minting-Holds, allocating-Holds, releasing-Holds}
use onnxcraft.Native.Flow.{
  Exit, continue_with, Ends, goes_on, fails, then_check, then_reply, then_guard,
}
use onnxcraft.Ort.Api.{OrtApi, Host}
use onnxcraft.Bridge.Load.Opening.{open_model-Answered}
use onnxcraft.Bridge.Types.{OcPort, OcSession}
use onnxcraft.Bridge.Open.Correct.{ready_runtime}
use onnxcraft.Bridge.Session.Owned.{session_owned, Same-session_owned, oc_session_free-Holds}
use onnxcraft.Bridge.Load.Body.{LoadLocals, sizeof_port, bad_counts, load_body}
use onnxcraft.Bridge.Load.Defs.{finish_load, use_session_block, oc_load}
use onnxcraft.Bridge.Load.Answered.{SessionAnswered}
use onnxcraft.Bridge.Load.Progress.{Filled, load_owned, loading, Loadable, loadable, midway}
use onnxcraft.Bridge.Load.Metadata.{Complete, complete, bad_counts_lem, complete_load-Ends}

-- A session that `oc_load` returns: every input and output is described, there is an output, and
-- the number of ports neither wraps nor makes the size of the array wrap.
pub data Loaded (p l env memory allocator : ℕ) (version : String) : OcSession → Type 0 where
  loaded :
      {self h inputs outputs pb nb : ℕ} {ps : List OcPort} {ns : List (Option ℕ)}
      → Filled ps ns
      → length ps ≡ inputs + outputs
      → 1 ≤ outputs
      → (inputs + outputs) * sizeof_port < 2 ^ 64
      → Loaded p l env memory allocator version
          ((midway p l env memory allocator version self h inputs outputs pb nb ps ns none).session)

-- How `oc_load` ends.
pub data LoadEnds {S : Type 0} (base : List Resource) (p l env memory allocator : ℕ)
    (version : String) (Told : OcSession → Type 0) : Reply OcSession → World S → Type 0 where
  load_done :
      {s : OcSession} {w : World S}
      → Loaded p l env memory allocator version s
      → Told s
      → Holds base (session_owned s []) w
      → LoadEnds base p l env memory allocator version Told (success s) w
  load_failed :
      {st : ℕ} {w : World S}
      → Holds base (resource Kind.status_handle st ∷ []) w
      → LoadEnds base p l env memory allocator version Told (failure st) w

-- What is told of a session may be weakened.
pub LoadEnds-mono :
    {S : Type 0} {base : List Resource} {p l env memory allocator : ℕ} {version : String}
    {P Q : OcSession → Type 0} {r : Reply OcSession} {w : World S}
    → ((s : OcSession) → P s → Q s)
    → LoadEnds base p l env memory allocator version P r w
    → LoadEnds base p l env memory allocator version Q r w
LoadEnds-mono weaken (load_done {s} is told held) = load_done is (weaken s told) held
LoadEnds-mono weaken (load_failed held) = load_failed held

module _ (p l env memory allocator : ℕ) (version : String) where
  module _ {S : Type 0} (api : OrtApi S) (host : Host S) {base : List Resource}
      (served : 1 ≤ count (resource Kind.library_handle l) base) where
    load_body-Ends :
        (self : ℕ) (path : Option String) (model size o : ℕ) {w : World S}
        → 1 ≤ count (resource Kind.env_handle env) base
        → 1 ≤ count (resource Kind.session_options_handle o) base
        → Holds base (resource Kind.heap_block self ∷ []) w
        → Ensures
            (Ends base load_owned
              (Loadable p l env memory allocator version self)
              (Complete p l env memory allocator version base (SessionAnswered api allocator)))
            (load_body api host l env allocator path model size o
              (loading p l env memory allocator version self none 0 0 none [] none [] none)
              w)
    unfolding load_body continue_with
    load_body-Ends self path model size o e s held =
        then_check _ _ (loadable refl)
          (open_model-Answered api host l env served path model size o e s held)
          λ h w₁ held₁.
            let handle = resource Kind.session_handle h in
            let both = resource Kind.library_handle l ∷ handle ∷ [] in
            let live : Live base (handle ∷ resource Kind.heap_block self ∷ []) both =
              omega (arith, one_self handle) in
            then_reply (api.session_get_input_count h) _ _ (loadable refl)
              (asking-Replied both _ held₁ live)
              λ input_answer w₂ has_inputs held₂.
                then_reply (api.session_get_output_count h) _ _ (loadable refl)
                  (asking-Replied both _ held₂ live)
                  λ output_answer w₃ has_outputs held₃.
                    let inputs = input_answer % 2 ^ 64 in
                    let outputs = output_answer % 2 ^ 64 in
                    let n = (inputs + outputs) % 2 ^ 64 in
                    then_guard (bad_counts inputs outputs n) _ _ _ _ (loadable refl)
                      (minting-Holds _ Kind.status_handle _ held₃ (omega arith))
                      λ fine.
                        let (some_output, fits) =
                          (bad_counts_lem inputs outputs (omega arith) (omega arith)).0 fine in
                        let exact : n ≡ inputs + outputs = omega arith in
                        complete_load-Ends p l env memory allocator version api host served self h
                          inputs outputs n refl exact some_output fits
                          (SessionAnswered api allocator)
                          (λ pb nb ps ns ports. record {
                            handle = h;
                            inputs = input_answer;
                            outputs = output_answer;
                            is_handle = refl;
                            has_inputs = has_inputs;
                            has_outputs = has_outputs;
                            counts_inputs = refl;
                            counts_outputs = refl;
                            ports = ports;
                          })
                          held₃

    finish_load-Ends :
        (self : ℕ) {r : Run S (Exit LoadLocals (Unit {0}))}
        → Ensures
            (Ends base load_owned
              (Loadable p l env memory allocator version self)
              (Complete p l env memory allocator version base (SessionAnswered api allocator)))
            r
        → Ensures
            (LoadEnds base p l env memory allocator version (SessionAnswered api allocator))
            (and_then r (finish_load api host l))
    unfolding finish_load
    finish_load-Ends self (ensures (goes_on (complete f e o fits told held))) =
        ensures (load_done (loaded f e o fits) told held)
    finish_load-Ends self
          (ensures (
            fails {st}
              (loadable {handle} {inputs} {outputs} {ports} {ps} {names} {ns} {info} sized)
              held)) =
        let stat = resource Kind.status_handle st in
        let s =
          (loading p l env memory allocator version self handle inputs outputs ports ps names ns
            info).session in
        bind
          (when_some-Holds Kind.type_info_handle info _ (stat ∷ session_owned s []) held
            (Same-sym (
              Same-front stat (opt_owned Kind.type_info_handle info) (session_owned s [])
                (Same-refl _)))
            λ a w₁ held₁.
              releasing-Holds _ Kind.type_info_handle a _ _ held₁ (omega arith) (Same-refl _))
          λ _ w₁ held₁.
            bind
              (oc_session_free-Holds api host p l env memory allocator version served self handle
                inputs outputs ports ps names ns (stat ∷ []) sized held₁
                (Same-session_owned s (stat ∷ [])))
              λ _ w₂ held₂. ensures (load_failed held₂)

    use_session_block-Ends :
        (path : Option String) (model size o : ℕ) (block : Option ℕ) {w : World S}
        → 1 ≤ count (resource Kind.env_handle env) base
        → 1 ≤ count (resource Kind.session_options_handle o) base
        → Holds base (opt_owned Kind.heap_block block ++ []) w
        → Ensures (LoadEnds base p l env memory allocator version (SessionAnswered api allocator)) (
            use_session_block api host l
              (ready_runtime p l env memory allocator version)
              path
              model
              size
              o
              block
              w)
    unfolding use_session_block deref
    use_session_block-Ends path model size o none e s held =
        bind (minting-Holds _ Kind.status_handle _ held (omega arith))
          λ st w₁ held₁. ensures (load_failed held₁)
    use_session_block-Ends path model size o (some self) e s held =
        finish_load-Ends self (load_body-Ends self path model size o e s held)

    pub oc_load-LoadEnds :
        (path : Option String) (model size o : ℕ) {w : World S}
        → 1 ≤ count (resource Kind.env_handle env) base
        → 1 ≤ count (resource Kind.session_options_handle o) base
        → Holds base [] w
        → Ensures
            (LoadEnds base p l env memory allocator version (SessionAnswered api allocator))
            (oc_load api host (ready_runtime p l env memory allocator version) path model size o w)
    unfolding oc_load
    oc_load-LoadEnds path model size o e s held =
        bind (allocating-Holds [] Kind.heap_block _ held tt)
          λ block w₁ held₁. use_session_block-Ends path model size o block e s held₁
