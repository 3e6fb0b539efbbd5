-- ===== src/Go/Session/Run.antt =====
-- `run` of session.go, and `Run` and `RunInto`. The deferred calls stand in the order in which they
-- run: the outputs are freed, the watcher is joined, and the descriptors are cleared.
use onnxcraft.Common.{
  ℕ, ◌+◌, Bool, true, false, List, [], ◌++◌, Option, none, some, String, if◌then◌else◌, length,
  get_elem?, take, drop,
}
use onnxcraft.Native.Machine.{M, Reply, pure, ◌>>=◌, ◌>>◌, deref}
use onnxcraft.Bridge.Types.{OcRuntime, OcSession, OcTensor}
use onnxcraft.Bridge.Interface.{Bridge}
use onnxcraft.Go.Result.{Result, good, bad}
use onnxcraft.Go.Cgo.{Cgo}
use onnxcraft.Go.Tensor.{Tensor}
use onnxcraft.Go.Runtime.{GoError, Session, native_error, on_good}
use onnxcraft.Go.Session.Operand.{Operand}
use onnxcraft.Go.Session.Context.{Context, context_err, enter_gate}
use onnxcraft.Go.Session.Describe.{check_operands, describe_operands, laid_out, cleared}
use onnxcraft.Go.Session.Outputs.{take_outputs}
use onnxcraft.Go.Session.Watch.{interleave, watch_context, finish, callback_events}

abbrev pub Outcome : Type 0
Outcome = Result GoError (List (Tensor ℕ))

module _ {S : Type 0} (cgo : Cgo S) (ctx : Context S) (c : Bridge S) (r : OcRuntime)
    (into : Bool) where
  unfoldable pub call_run :
      OcSession
      → Option ℕ
      → (inputs outputs : List OcTensor) → M S (Reply (Unit {0}) × List OcTensor)
  call_run ptr options inputs outputs =
      if into then c.oc_run_into ptr options inputs outputs else c.oc_run ptr options inputs outputs

  -- The error of the context comes before that of ONNX Runtime.
  unfoldable pub conclude : Option String → Result GoError (Unit {0}) → List OcTensor → M S Outcome
  unfolding take_outputs
  conclude (some e) err outputs = pure (bad (GoError.context_ended e))
  conclude none (bad e) outputs = pure (bad e)
  conclude none (good _) outputs = if into then pure (good []) else take_outputs cgo 0 outputs

  unfoldable pub free_after : OcSession → List OcTensor → M S (Unit {0})
  free_after ptr outputs = if into then pure tt else (do c.oc_outputs_free ptr outputs; pure tt)

  unfoldable pub after_run : OcSession → Reply (Unit {0}) × List OcTensor → M S Outcome
  unfolding native_error context_err conclude free_after
  after_run ptr answer = do
    err ← native_error c r answer.0
    ended ← context_err ctx
    result ← conclude ended err answer.1
    free_after ptr answer.1
    pure result

  unfoldable pub run_plain : OcSession → (inputs outputs : List OcTensor) → M S Outcome
  unfolding call_run after_run
  run_plain ptr inputs outputs = do answer ← call_run ptr none inputs outputs; after_run ptr answer

  -- With a watcher, whose callback has come to step `before` when the bridge is called and to step
  -- `after` when the call returns.
  unfoldable pub run_watched :
      OcSession → (inputs outputs : List OcTensor) → (before after : ℕ) → M S Outcome
  unfolding watch_context on_good interleave call_run after_run
  run_watched ptr inputs outputs before after = do
    x ← watch_context c r
    on_good x λ x. (do
      x' ← interleave c r (take before callback_events) x
      answer ← call_run ptr (some x'.options) inputs outputs
      x'' ← interleave c r (take after callback_events) x'
      result ← after_run ptr answer
      interleave c r finish x''
      pure result)

  -- The descriptors from index `k` on, of which there must be one, are the outputs.
  unfoldable pub run_descriptors :
      OcSession → (k : ℕ) → List OcTensor → (before after : ℕ) → M S Outcome
  unfolding run_plain run_watched deref
  run_descriptors ptr k ds before after = do
    deref (get_elem? ds k)
    (if ctx.cancelable
        then run_watched ptr (take k ds) (drop k ds) before after
        else run_plain ptr (take k ds) (drop k ds))

module _ {S : Type 0} (cgo : Cgo S) (ctx : Context S) (c : Bridge S) (owner : Option OcRuntime)
    (s : Session) (into : Bool) (inputs outputs : List Operand) (before after : ℕ) where
  -- With a buffer of the pool, which is given back cleared. `owner` is `s.runtime.native`: where it
  -- is NULL, this faults, before the code reads it.
  unfoldable pub run_laid_out : OcSession → (buffer : List OcTensor) → M S (Outcome × List OcTensor)
  unfolding describe_operands on_good run_descriptors deref
  run_laid_out ptr buffer =
      let n = length s.inputs + length s.outputs in
      do
        result ← on_good (describe_operands 0 (inputs ++ outputs)) λ ds. (do
          r ← deref owner
          run_descriptors cgo ctx c r into ptr (length s.inputs) (laid_out n buffer ds) before
              after)
        pure (result, cleared n buffer)

  unfoldable pub run_checked :
      OcSession
      → (buffer : List OcTensor) → Result GoError (Unit {0})
      → M S (Outcome × List OcTensor)
  unfolding run_laid_out
  run_checked ptr buffer (bad e) = pure (bad e, buffer)
  run_checked ptr buffer (good _) = run_laid_out ptr buffer

  unfoldable pub run_entered :
      OcSession → (buffer : List OcTensor) → (ended : Option String) → M S (Outcome × List OcTensor)
  unfolding check_operands run_checked
  run_entered ptr buffer (some e) = pure (bad (GoError.context_ended e), buffer)
  run_entered ptr buffer none = run_checked ptr buffer (check_operands s into inputs outputs)

  -- Behind the `select`, the context is asked again.
  unfoldable pub run_selected :
      OcSession
      → (buffer : List OcTensor) → (refused : Option String) → M S (Outcome × List OcTensor)
  unfolding context_err run_entered
  run_selected ptr buffer (some e) = pure (bad (GoError.context_ended e), buffer)
  run_selected ptr buffer none = do ended ← context_err ctx; run_entered ptr buffer ended

  unfoldable pub run_open :
      Option OcSession → (buffer : List OcTensor) → M S (Outcome × List OcTensor)
  unfolding enter_gate run_entered run_selected
  run_open none buffer = pure (bad GoError.closed, buffer)
  run_open (some ptr) buffer =
      if s.gated
      then (do refused ← enter_gate ctx; run_selected ptr buffer refused)
      else run_entered ptr buffer none

  unfoldable pub run_started :
      (ended : Option String) → (buffer : List OcTensor) → M S (Outcome × List OcTensor)
  unfolding run_open
  run_started (some e) buffer = pure (bad (GoError.context_ended e), buffer)
  run_started none buffer = run_open s.native buffer

  unfoldable pub run_session : (buffer : List OcTensor) → M S (Outcome × List OcTensor)
  unfolding context_err run_started
  run_session buffer = do ended ← context_err ctx; run_started ended buffer

-- `Run` and `RunInto`. The pool gives a buffer and takes one back.
module _ {S : Type 0} (cgo : Cgo S) (ctx : Context S) (c : Bridge S) (owner : Option OcRuntime)
    (s : Session) (inputs : List Operand) (before after : ℕ) where
  unfoldable pub run_new : (buffer : List OcTensor) → M S (Outcome × List OcTensor)
  unfolding run_session
  run_new buffer = run_session cgo ctx c owner s false inputs [] before after buffer

  -- The tensors are dropped.
  unfoldable pub run_into :
      (outputs : List Operand)
      → (buffer : List OcTensor) → M S (Result GoError (Unit {0}) × List OcTensor)
  unfolding run_session on_good
  run_into outputs buffer = do
    (result, buffer') ← run_session cgo ctx c owner s true inputs outputs before after buffer
    err ← on_good result λ _. pure (good tt)
    pure (err, buffer')
