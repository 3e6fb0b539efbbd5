-- ===== src/Go/Session/Ran/Called.antt =====
-- The call of the bridge in `run`, and what follows it.
use onnxcraft.Common.{
  ℕ, ◌≡◌, refl, sym, subst, ap, Bool, true, false, List, [], ◌∷◌, Option, none, some, String, arith,
  length,
}
use onnxcraft.Native.Ledger.{Resource, count, count-append}
use onnxcraft.Native.Machine.{World, Reply, pure, ◌>>=◌}
use onnxcraft.Native.Rules.{Ensures, ensures, bind, Holds, Holds-Same}
use onnxcraft.Native.Calls.{reading-Holds}
use onnxcraft.Bridge.Types.{OcSession, OcTensor}
use onnxcraft.Bridge.Run.Collect.{Fresh}
use onnxcraft.Bridge.Run.Owned.{outputs_owned, outputs_owned-live}
use onnxcraft.Bridge.Run.Finish.{RunEnds, run_ok, run_bad}
use onnxcraft.Ort.Enums.{OrtErrorCode}
use onnxcraft.Bridge.Interface.{Bridge}
use onnxcraft.Bridge.Interface.Laws.{
  Handle, the_runtime, Served, LoadedOn, HasSession, HasGivenOptions, IsBridge,
}
use onnxcraft.Go.Result.{Result, good, bad}
use onnxcraft.Go.Cgo.{Cgo}
use onnxcraft.Go.Runtime.{GoError, native_error}
use onnxcraft.Go.Runtime.Owned.Errors.{native_error-failure}
use onnxcraft.Go.Session.Context.{Context, context_err}
use onnxcraft.Go.Session.Outputs.{take_outputs}
use onnxcraft.Go.Session.Run.{call_run, conclude, free_after, after_run}
use onnxcraft.Go.Session.Ran.Copied.{Gives, Full, Taken, AllLive, Given-AllLive, take_outputs-Sound}

-- How many tensors are returned, of `m` outputs.
abbrev pub returned : (into : Bool) → (m : ℕ) → ℕ
returned true m = 0
returned false m = m

module _ {S : Type 0} (cgo : Cgo S) (ctx : Context S) {c : Bridge S} {Code : OrtErrorCode → Type 0}
    (laws : IsBridge S c Code) (base : List Resource) (h : Handle) (served : Served base h)
    (ptr : OcSession) (on : LoadedOn h ptr) where
  pub call_run-RunEnds :
      (into : Bool) (options : Option ℕ) (inputs outputs : List OcTensor) {w : World S}
      → HasSession base h ptr
      → HasGivenOptions base options
      → length inputs ≡ ptr.inputs
      → length outputs ≡ ptr.outputs
      → (into ≡ false → Fresh 0 outputs)
      → Holds base [] w
      → Ensures
          (RunEnds base (returned into ptr.outputs))
          (call_run cgo ctx c (the_runtime h) into ptr options inputs outputs w)
  unfolding call_run
  call_run-RunEnds true options inputs outputs has given reads writes fresh held =
      laws.oc_run_into-RunEnds base h ptr options inputs outputs served on has given reads writes
        held
  call_run-RunEnds false options inputs outputs has given reads writes fresh held =
      laws.oc_run-RunEnds base h ptr options inputs outputs served on has given reads writes
        (fresh refl) held

  conclude-Taken :
      (into : Bool) (ended : Option String) (err : Result GoError (Unit {0})) (ts : List OcTensor)
      {w : World S}
      → length ts ≡ returned into ptr.outputs
      → Gives (λ _. AllLive (outputs_owned ts) ts) err
      → Holds base (outputs_owned ts) w
      → Ensures
          (Taken base (outputs_owned ts) (Full (returned into ptr.outputs)))
          (conclude cgo ctx c (the_runtime h) into ended err ts w)
  unfolding conclude
  conclude-Taken into (some e) err ts sized live held = ensures (tt, held)
  conclude-Taken into none (bad e) ts sized live held = ensures (tt, held)
  conclude-Taken true none (good _) ts sized live held = ensures ((refl, tt), held)
  conclude-Taken false none (good _) ts {w} sized live held =
      subst (λ m. Ensures (Taken base (outputs_owned ts) (Full m)) (take_outputs cgo 0 ts w)) sized
        (take_outputs-Sound cgo base (outputs_owned ts) 0 ts live held)

  free_after-Holds :
      (into : Bool) (ts : List OcTensor) {w : World S}
      → length ts ≡ returned into ptr.outputs
      → Holds base (outputs_owned ts) w
      → Ensures (λ _ w'. Holds base [] w') (free_after cgo ctx c (the_runtime h) into ptr ts w)
  unfolding free_after
  free_after-Holds true [] sized held = ensures held
  free_after-Holds true (t ∷ ts) sized held = absurd (omega arith)
  free_after-Holds false ts sized held =
      bind
        (laws.oc_outputs_free-Cleared base h ptr ts [] served on sized (
          Holds-Same held
            (record { counts = λ q. omega (arith, count-append q (outputs_owned ts) []) })))
        λ _ w₁ p. ensures p.held

  conclude_all :
      (into : Bool) (err : Result GoError (Unit {0})) (ts : List OcTensor) {w : World S}
      → length ts ≡ returned into ptr.outputs
      → Gives (λ _. AllLive (outputs_owned ts) ts) err
      → Holds base (outputs_owned ts) w
      → Ensures (Taken base [] (Full (returned into ptr.outputs))) (
          (context_err ctx >>= λ ended.
          conclude cgo ctx c (the_runtime h) into ended err ts >>= λ result.
          free_after cgo ctx c (the_runtime h) into ptr ts >>= λ _. pure result)
            w)
  unfolding context_err
  conclude_all into err ts sized live held =
      bind (reading-Holds [] ctx.err held tt) λ ended w₁ held₁.
        bind (conclude-Taken into ended err ts sized live held₁) λ result w₂ p.
          bind (free_after-Holds into ts sized p.1) λ _ w₃ held₃. ensures (p.0, held₃)

  -- Whatever the bridge has answered, its outputs are freed.
  pub after_run-Taken :
      (into : Bool) (answer : Reply (Unit {0}) × List OcTensor) {w : World S}
      → RunEnds base (returned into ptr.outputs) answer w
      → Ensures
          (Taken base [] (Full (returned into ptr.outputs)))
          (after_run cgo ctx c (the_runtime h) into ptr answer w)
  unfolding after_run native_error
  after_run-Taken into answer (run_ok {ts} sized given held) =
      conclude_all into (good tt) ts sized
        (Given-AllLive _ (outputs_owned ts) ts sized given (outputs_owned-live ts)) held
  after_run-Taken into answer (run_bad {st} {ts} r) =
      bind (native_error-failure laws base h served st r.held) λ err w₁ p.
        conclude_all into err ts r.sized (subst (Gives _) (sym p.0.1) tt)
          (Holds-Same p.1 (record { counts = λ q. ap (count q) (sym r.empty) }))
