-- ===== src/Bridge/Run/Values.antt =====
-- The call of `Run`, within the body.
use onnxcraft.Common.{
  ℕ, ◌+◌, ◌^◌, ◌≤◌, ◌<◌, ◌≡◌, ap, List, [], ◌++◌, Option, some, arith, length, length-append, take,
  drop, String,
}
use onnxcraft.Native.Ledger.{Kind, Resource, resource, count, count-append}
use onnxcraft.Native.Machine.{World, Reply}
use onnxcraft.Native.Rules.{Ensures, ensures, Holds, Holds-Same, Live, opt_owned}
use onnxcraft.Native.Flow.{Ends, goes_on, fails, then_plain, answered, continue_with}
use onnxcraft.Ort.Api.{OrtApi, Host}
use onnxcraft.Ort.Calls.{values_owned}
use onnxcraft.Bridge.Types.{OcPort, OcSession, OcTensor}
use onnxcraft.Bridge.Open.Correct.{ready_runtime}
use onnxcraft.Bridge.Run.Body.{RunLocals, run_values}
use onnxcraft.Bridge.Run.Owned.{outputs_owned, values_owned-append}
use onnxcraft.Bridge.Run.Create.{run_owned, run_owned-count, Created, OutputsSized}
use onnxcraft.Bridge.Run.Answer.{RunAnswered, run_done, run_failed, ort_run-Answered}
use onnxcraft.Bridge.Run.Collect.{Ready}
use onnxcraft.Common.{length-take, length-drop}
use onnxcraft.Bridge.Run.Arrays.{values_owned-halves, Ready-append}

-- `Run` has answered: the entries behind the inputs are values.
pub record Answer {S : Type 0} (base blk : List Resource) (inputs n : ℕ) (outs : List OcTensor)
    (u : Unit {0}) (l : RunLocals) (w : World S) : Type 0 where
  pub sized : length l.values ≡ n
  pub ready : Ready inputs n l.values
  pub kept : l.outputs ≡ outs
  pub held : Holds base (run_owned blk l) w

-- A session that is loaded on a ready runtime.
abbrev pub open_session :
    (p l env memory allocator : ℕ)
    → String
    → (self h inputs outputs : ℕ) → Option ℕ
    → List OcPort
    → Option ℕ
    → List (Option ℕ)
    → OcSession
open_session p l env memory allocator version self h inputs outputs ports ps names ns = record {
  self = self;
  runtime = ready_runtime p l env memory allocator version;
  handle = some h;
  inputs = inputs;
  outputs = outputs;
  ports = ports;
  port_array = ps;
  names = names;
  name_array = ns;
}

module _ (p l env memory allocator : ℕ) (version : String) (self h inputs outputs : ℕ)
    (ports : Option ℕ) (ps : List OcPort) (names : Option ℕ) (ns : List (Option ℕ)) where
  abbrev the_session : OcSession
  the_session =
      open_session p l env memory allocator version self h inputs outputs ports ps names ns

  module _ {S : Type 0} (api : OrtApi S) (host : Host S) (empty : ℕ) {base : List Resource}
      (options : Option ℕ) (small : inputs + outputs < 2 ^ 64)
      (served : 1 ≤ count (resource Kind.library_handle l) base)
      (placed : 1 ≤ count (resource Kind.memory_info_handle memory) base)
      (alive : 1 ≤ count (resource Kind.session_handle h) base)
      (given : Live base [] (opt_owned Kind.run_options_handle options)) where
    RunAnswered-Answer :
        (blk : List Resource) (outs : List OcTensor) (v : RunLocals)
        {r : Reply (Unit {0}) × List (Option ℕ)} {w : World S}
        → length v.values ≡ inputs + outputs
        → v.outputs ≡ outs
        → RunAnswered base
            (values_owned (take inputs v.values) ++ (outputs_owned v.outputs ++ blk))
            (length (drop inputs v.values))
            r
            w
        → Ensures
            (Ends base
              (run_owned blk)
              (OutputsSized (length outs))
              (Answer base blk inputs (inputs + outputs) outs))
            (answered (record v { values = take inputs v.values ++ r.1 }) r.0 w)
    unfolding answered
    RunAnswered-Answer blk outs v sized kept (run_done {vs} e full held) =
        let kept_values = take inputs v.values in
        let front = length-take inputs v.values (omega arith) in
        let back = length-drop inputs v.values (omega arith) in
        let v' : RunLocals = record v { values = kept_values ++ vs } in
        let total : length (kept_values ++ vs) ≡ inputs + outputs =
          omega (arith, length-append kept_values vs) in
        ensures (
          goes_on (record {
            sized = total;
            ready = λ j lo hi. Ready-append kept_values vs full j (omega arith) (omega arith);
            kept = kept;
            held = Holds-Same held (record {
              counts = λ q. omega (
                arith,
                run_owned-count q blk v',
                values_owned-append q kept_values vs,
                count-append q (values_owned vs)
                    (values_owned kept_values ++ (outputs_owned v.outputs ++ blk)),
                count-append q (values_owned kept_values) (outputs_owned v.outputs ++ blk),
                count-append q (outputs_owned v.outputs) blk,
              );
            });
          }))
    RunAnswered-Answer blk outs v sized kept (run_failed {st} {vs} e held) =
        let kept_values = take inputs v.values in
        let v' : RunLocals = record v { values = kept_values ++ vs } in
        ensures (
          fails (ap length kept) (
            Holds-Same held (record {
              counts = λ q. omega (
                arith,
                run_owned-count q blk v',
                values_owned-append q kept_values vs,
                count-append q (values_owned vs)
                    (values_owned kept_values ++ (outputs_owned v.outputs ++ blk)),
                count-append q (values_owned kept_values) (outputs_owned v.outputs ++ blk),
                count-append q (outputs_owned v.outputs) blk,
              );
            })))

    pub run_values-Ends :
        (blk : List Resource) (outs : List OcTensor) {u : Unit {0}} {v : RunLocals} {w : World S}
        → Created base blk (inputs + outputs) outs u v w
        → Ensures
            (Ends base
              (run_owned blk)
              (OutputsSized (length outs))
              (Answer base blk inputs (inputs + outputs) outs))
            (run_values api l empty the_session options h v w)
    unfolding run_values continue_with
    run_values-Ends blk outs {v = v} c =
        let rest = outputs_owned v.outputs ++ blk in
        then_plain _ _
          (ort_run-Answered api l h options _ (take inputs v.values) _ (drop inputs v.values) rest
            served alive given
            (Holds-Same c.held (record {
              counts = λ q. omega (
                arith,
                run_owned-count q blk v,
                values_owned-halves q inputs v.values,
                count-append q (values_owned (drop inputs v.values))
                    (values_owned (take inputs v.values) ++ rest),
                count-append q (values_owned (take inputs v.values)) rest,
                count-append q (outputs_owned v.outputs) blk,
              );
            })))
          λ r w₁ q. RunAnswered-Answer blk outs v c.sized c.kept q
