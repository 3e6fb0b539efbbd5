-- ===== src/Go/Session/Ran/Result.antt =====
-- `run` of session.go, from its first check to its last deferred call.
use onnxcraft.Common.{
  ℕ, ◌+◌, ◌≤◌, ◌≡◌, ap, ◌∙◌, ◌⊎◌, inl, inr, Bool, true, false, Bool-cases, List, [], ◌++◌, Option,
  none, some, String, arith, length, take, drop, get_elem?-some, length-append, length-take,
  length-drop,
}
use onnxcraft.Native.Ledger.{Resource}
use onnxcraft.Native.Machine.{World, deref}
use onnxcraft.Native.Rules.{Ensures, ensures, bind, Holds}
use onnxcraft.Native.Calls.{reading-Holds}
use onnxcraft.Bridge.Types.{OcRuntime, OcSession, OcTensor}
use onnxcraft.Bridge.Load.Correct.{loaded}
use onnxcraft.Bridge.Run.Collect.{Fresh}
use onnxcraft.Ort.Enums.{OrtErrorCode}
use onnxcraft.Bridge.Interface.{Bridge}
use onnxcraft.Bridge.Interface.Laws.{Handle, the_runtime, Served, LoadedOn, HasSession, IsBridge}
use onnxcraft.Go.Cgo.{Cgo}
use onnxcraft.Go.Runtime.{Session, on_good}
use onnxcraft.Go.Session.Operand.{Operand}
use onnxcraft.Go.Session.Context.{Context, context_err, enter_gate}
use onnxcraft.Go.Session.Describe.{laid_out}
use onnxcraft.Go.Session.Run.{
  Outcome, run_descriptors, run_laid_out, run_checked, run_entered, run_selected, run_open,
  run_started, run_session,
}
use onnxcraft.Go.Session.Ran.Layout.{
  AllZero, cleared-AllZero, length-laid_out, laid_out-Fresh, describe_operands-cases,
}
use onnxcraft.Go.Session.Checked.{check_operands-cases}
use onnxcraft.Go.Session.Ran.Copied.{Full, Taken}
use onnxcraft.Go.Session.Ran.Called.{returned}
use onnxcraft.Go.Session.Ran.Watching.{run_plain-Taken, run_watched-Taken}

-- How `run` ends: nothing is newly live, the descriptors go back clear, and without an error the
-- tensors returned are as many as asked for, each of as many bytes as its shape and type take.
abbrev pub Over : {S : Type 0} → List Resource → ℕ → Outcome × List OcTensor → World S → Type 0
Over base m x w = Taken base [] (Full m) x.0 w × AllZero x.1

-- A session that `load` has made.
pub record Usable (h : Handle) (s : Session) (ptr : OcSession) : Type 0 where
  pub native : s.native ≡ some ptr
  pub on : LoadedOn h ptr
  pub as_inputs : length s.inputs ≡ ptr.inputs
  pub as_outputs : length s.outputs ≡ ptr.outputs

LoadedOn-outputs : (h : Handle) (ptr : OcSession) → LoadedOn h ptr → 1 ≤ ptr.outputs
LoadedOn-outputs h ptr (loaded filled sized some_output small) = some_output

module _ {S : Type 0} (cgo : Cgo S) (ctx : Context S) {c : Bridge S} {Code : OrtErrorCode → Type 0}
    (laws : IsBridge S c Code) (base : List Resource) (h : Handle) (served : Served base h)
    (ptr : OcSession) (on : LoadedOn h ptr) (has : HasSession base h ptr) where
  run_descriptors-Taken :
      (into : Bool) (k : ℕ) (ds : List OcTensor) (before after : ℕ) {w : World S}
      → k ≡ ptr.inputs
      → length ds ≡ ptr.inputs + ptr.outputs
      → (into ≡ false → Fresh 0 (drop k ds))
      → Holds base [] w
      → Ensures
          (Taken base [] (Full (returned into ptr.outputs)))
          (run_descriptors cgo ctx c (the_runtime h) into ptr k ds before after w)
  unfolding run_descriptors deref
  run_descriptors-Taken into k ds before after same sized fresh held =
      let outs = LoadedOn-outputs h ptr on in
      let (d, at) = get_elem?-some ds k (omega arith) in
      let reads : length (take k ds) ≡ ptr.inputs = length-take k ds (omega arith) ∙ same in
      let writes : length (drop k ds) ≡ ptr.outputs =
        omega (arith, length-drop k ds (omega arith)) in
      rw at (elim (Bool-cases ctx.cancelable) [
        | inl e ↦ rw e (
            run_watched-Taken cgo ctx laws base h served ptr on has into (take k ds) (drop k ds)
              reads writes fresh before after held)
        | inr e ↦ rw e (
            run_plain-Taken cgo ctx laws base h served ptr on has into (take k ds) (drop k ds) reads
              writes fresh held)
      ])

  module _ (s : Session) (usable : Usable h s ptr) (into : Bool) (inputs outputs : List Operand)
      (none_given : into ≡ false → outputs ≡ []) (before after : ℕ) where
    run_laid_out-Over :
        (buffer : List OcTensor) {w : World S}
        → length inputs ≡ length s.inputs
        → length outputs ≤ length s.outputs
        → AllZero buffer
        → Holds base [] w
        → Ensures (Over base (returned into ptr.outputs)) (
            run_laid_out cgo ctx c
              (some (the_runtime h))
              s
              into
              inputs
              outputs
              before
              after
              ptr
              buffer
              w)
    unfolding run_laid_out on_good deref
    run_laid_out-Over buffer reads few clear held =
        let n = length s.inputs + length s.outputs in
        elim (describe_operands-cases 0 (inputs ++ outputs)) [
          | inl (e, same) ↦ rw same (ensures ((tt, held), cleared-AllZero n buffer clear))
          | inr (ds, same, sized) ↦ rw same (
              bind
                (run_descriptors-Taken into (length s.inputs) (laid_out n buffer ds) before after
                  usable.as_inputs (length-laid_out n buffer ds (many ds sized) ∙ total)
                  (λ i. laid_out-Fresh n (length s.inputs) buffer ds clear (alone i ds sized)) held)
                λ result w₁ t. ensures (t, cleared-AllZero n buffer clear))
        ]
      where
        total : length s.inputs + length s.outputs ≡ ptr.inputs + ptr.outputs
        total = omega (arith, usable.as_inputs, usable.as_outputs)

        many :
            (ds : List OcTensor)
            → length ds ≡ length (inputs ++ outputs)
            → length ds ≤ length s.inputs + length s.outputs
        many ds sized = omega (arith, sized, reads, few, length-append inputs outputs)

        alone :
            into ≡ false
            → (ds : List OcTensor) → length ds ≡ length (inputs ++ outputs)
            → length ds ≡ length s.inputs
        alone i ds sized =
            omega (arith, sized, reads, ap length (none_given i), length-append inputs outputs)

    run_entered-Over :
        (buffer : List OcTensor) (ended : Option String) {w : World S}
        → AllZero buffer
        → Holds base [] w
        → Ensures (Over base (returned into ptr.outputs)) (
            run_entered cgo ctx c
              (some (the_runtime h))
              s
              into
              inputs
              outputs
              before
              after
              ptr
              buffer
              ended
              w)
    unfolding run_entered run_checked
    run_entered-Over buffer (some e) clear held = ensures ((tt, held), clear)
    run_entered-Over buffer none clear held = elim (check_operands-cases s into inputs outputs) [
      | inl (e, same) ↦ rw same (ensures ((tt, held), clear))
      | inr (same, reads, writes, free) ↦
          rw same (run_laid_out-Over buffer reads (few (Bool-cases into) writes) clear held)
    ]
      where
        few :
            (into ≡ true) ⊎ (into ≡ false)
            → (into ≡ true → length outputs ≡ length s.outputs)
            → length outputs ≤ length s.outputs
        few (inl e) writes = omega (arith, writes e)
        few (inr e) writes = omega (arith, ap length (none_given e))

    run_selected-Over :
        (buffer : List OcTensor) (refused : Option String) {w : World S}
        → AllZero buffer
        → Holds base [] w
        → Ensures (Over base (returned into ptr.outputs)) (
            run_selected cgo ctx c
              (some (the_runtime h))
              s
              into
              inputs
              outputs
              before
              after
              ptr
              buffer
              refused
              w)
    unfolding run_selected context_err
    run_selected-Over buffer (some e) clear held = ensures ((tt, held), clear)
    run_selected-Over buffer none clear held =
        bind (reading-Holds [] ctx.err held tt)
          λ ended w₁ held₁. run_entered-Over buffer ended clear held₁

    run_started-Over :
        (ended : Option String) (buffer : List OcTensor) {w : World S}
        → AllZero buffer
        → Holds base [] w
        → Ensures (Over base (returned into ptr.outputs)) (
            run_started cgo ctx c
              (some (the_runtime h))
              s
              into
              inputs
              outputs
              before
              after
              ended
              buffer
              w)
    unfolding run_started run_open enter_gate
    run_started-Over (some e) buffer clear held = ensures ((tt, held), clear)
    run_started-Over none buffer clear held = rw (usable.native) (elim (Bool-cases s.gated) [
      | inl e ↦ rw e (
          bind (reading-Holds [] ctx.enter held tt)
            λ refused w₁ held₁. run_selected-Over buffer refused clear held₁)
      | inr e ↦ rw e (run_entered-Over buffer none clear held)
    ])

    -- `run` on a session that `load` returned and that is open, over a bridge that keeps its laws, with
    -- a clear buffer of the pool and, for `Run`, no outputs: for all tensors, every context and any pace
    -- of its watcher it ends without a fault, with a result, an error or a panic of `unsafe.Slice`. It
    -- reads no more bytes of an output than ONNX Runtime says that it has, and none at NULL. Nothing is
    -- newly live, and the buffer goes back clear.
    -- Without an error, `Run` returns as many tensors as the model has outputs, each with as many bytes
    -- as its shape and type take, a number that an int holds, and `RunInto` returns none.
    pub run_session-Over :
        (buffer : List OcTensor) {w : World S}
        → AllZero buffer
        → Holds base [] w
        → Ensures (Over base (returned into ptr.outputs)) (
            run_session cgo ctx c
              (some (the_runtime h))
              s
              into
              inputs
              outputs
              before
              after
              buffer
              w)
    unfolding run_session context_err
    run_session-Over buffer clear held =
        bind (reading-Holds [] ctx.err held tt)
          λ ended w₁ held₁. run_started-Over ended buffer clear held₁

-- A closed session: nothing is called.
module _ {S : Type 0} (cgo : Cgo S) (ctx : Context S) (c : Bridge S) (owner : Option OcRuntime)
    (s : Session) (closed : s.native ≡ none) (into : Bool) (inputs outputs : List Operand)
    (before after : ℕ) (base own : List Resource) where
  pub run_session-closed :
      (buffer : List OcTensor) {w : World S}
      → AllZero buffer
      → Holds base own w
      → Ensures
          (λ x w'. Holds base own w' × AllZero x.1)
          (run_session cgo ctx c owner s into inputs outputs before after buffer w)
  unfolding run_session context_err run_started run_open
  run_session-closed buffer clear held = bind (reading-Holds [] ctx.err held tt) (after_err)
    where
      after_err :
          (ended : Option String) (w : World S)
          → Holds base own w
          → Ensures
              (λ x w'. Holds base own w' × AllZero x.1)
              (run_started cgo ctx c owner s into inputs outputs before after ended buffer w)
      after_err (some e) w held = ensures (held, clear)
      after_err none w held = rw closed (ensures (held, clear))
