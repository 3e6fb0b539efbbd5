-- ===== src/Bridge/Run/Finish.antt =====
-- What `run` and `oc_outputs_free` release.
use onnxcraft.Common.{
  ℕ, zero, suc, ◌≤◌, ◌≡◌, refl, List, [], ◌∷◌, ◌++◌, Option, none, some, arith, length, String,
}
use onnxcraft.Native.Ledger.{Kind, Resource, resource, count, count-append}
use onnxcraft.Native.Machine.{World, Run, and_then, Reply, success, failure, deref, when_some}
use onnxcraft.Native.Rules.{
  Ensures, ensures, bind, Holds, Holds-Same, Same, Same-refl, Same-sym, Same-front,
  Same-append_comm, opt_owned, when_some-Holds,
}
use onnxcraft.Native.Calls.{releasing-Holds}
use onnxcraft.Native.Flow.{Exit, Ends, goes_on, fails}
use onnxcraft.Ort.Api.{OrtApi, Host}
use onnxcraft.Ort.Calls.{values_owned, release_value, free}
use onnxcraft.Bridge.Types.{OcSession, OcTensor}
use onnxcraft.Bridge.Open.Correct.{ready_runtime}
use onnxcraft.Bridge.Run.Release.{free_outputs, oc_outputs_free, release_values}
use onnxcraft.Bridge.Run.Body.{RunLocals}
use onnxcraft.Bridge.Run.Defs.{clear_outputs, finish_run}
use onnxcraft.Bridge.Run.Owned.{value_owned, outputs_owned, values_owned-cons}
use onnxcraft.Bridge.Run.Create.{run_owned, OutputsSized}
use onnxcraft.Bridge.Run.Collect.{Given}

-- Outputs that hold no value.
pub record Cleared {S : Type 0} (base rest : List Resource) (m : ℕ) (ts : List OcTensor)
    (w : World S) : Type 0 where
  pub sized : length ts ≡ m
  pub empty : outputs_owned ts ≡ []
  pub held : Holds base rest w

-- How `run` ends, for `m` outputs.
pub data RunEnds {S : Type 0} (base : List Resource) (m : ℕ)
    : Reply (Unit {0}) × List OcTensor → World S → Type 0 where
  run_ok :
      {ts : List OcTensor} {w : World S}
      → length ts ≡ m
      → Given m ts
      → Holds base (outputs_owned ts) w
      → RunEnds base m (success tt, ts) w
  run_bad :
      {st : ℕ} {ts : List OcTensor} {w : World S}
      → Cleared base (resource Kind.status_handle st ∷ []) m ts w
      → RunEnds base m (failure st, ts) w

-- The body has come to its end.
pub record Finished {S : Type 0} (base blk : List Resource) (m : ℕ) (u : Unit {0}) (l : RunLocals)
    (w : World S) : Type 0 where
  pub outs_sized : length l.outputs ≡ m
  pub given : Given m l.outputs
  pub held : Holds base (run_owned blk l) w

-- The number of outputs that are written: none where NULL is passed.
abbrev pub Written : Option (List OcTensor) → ℕ → ℕ → Type 0
Written none outputs m = m ≡ 0
Written (some ts) outputs m = m ≡ outputs

module _ {S : Type 0} (api : OrtApi S) (host : Host S) {base : List Resource}
    (p l env memory allocator : ℕ) (version : String)
    (served : 1 ≤ count (resource Kind.library_handle l) base) where
  free_outputs-Cleared :
      (k : ℕ) (ts : List OcTensor) (rest : List Resource) {w : World S}
      → length ts ≡ k
      → Holds base (outputs_owned ts ++ rest) w
      → Ensures
          (Cleared base rest k)
          (free_outputs api (ready_runtime p l env memory allocator version) k ts w)
  unfolding free_outputs deref release_value
  free_outputs-Cleared zero [] rest e h = ensures (record { sized = refl; empty = refl; held = h })
  free_outputs-Cleared zero (t ∷ ts) rest e h = absurd (omega arith)
  free_outputs-Cleared (suc k) [] rest e h = absurd (omega arith)
  free_outputs-Cleared (suc k) (t ∷ ts) rest e h =
      let after = outputs_owned ts ++ rest in
      bind
        (when_some-Holds Kind.value_handle t.value _ after h
          (record {
            counts = λ q. omega (
              arith,
              count-append q (value_owned t.value ++ outputs_owned ts) rest,
              count-append q (value_owned t.value) (outputs_owned ts),
              count-append q (value_owned t.value) after,
              count-append q (outputs_owned ts) rest,
            );
          })
          λ v w₁ h₁. releasing-Holds _ Kind.value_handle v _ _ h₁ (omega arith) (Same-refl _))
        λ _ w₁ h₁. bind (free_outputs-Cleared k ts rest (omega arith) h₁) λ us w₂ c.
          ensures (record { sized = omega (arith, c.sized); empty = c.empty; held = c.held })

  -- `oc_outputs_free` releases the values that the outputs hold, each once, and nothing else, and
  -- leaves as many outputs, without values.
  pub oc_outputs_free-Cleared :
      (s : OcSession) (ts : List OcTensor) (rest : List Resource) {w : World S}
      → s.runtime ≡ ready_runtime p l env memory allocator version
      → length ts ≡ s.outputs
      → Holds base (outputs_owned ts ++ rest) w
      → Ensures (Cleared base rest (s.outputs)) (oc_outputs_free api s ts w)
  unfolding oc_outputs_free
  oc_outputs_free-Cleared s ts rest same e h = rw same (free_outputs-Cleared s.outputs ts rest e h)

  release_values-Holds :
      (vs : List (Option ℕ)) (rest : List Resource) {w : World S}
      → Holds base (values_owned vs ++ rest) w
      → Ensures (λ _ w'. Holds base rest w') (release_values api l vs w)
  unfolding release_values release_value
  release_values-Holds [] rest h = ensures h
  release_values-Holds (v ∷ vs) rest h =
      let after = values_owned vs ++ rest in
      bind
        (when_some-Holds Kind.value_handle v _ after h
          (record {
            counts = λ q. omega (
              arith,
              count-append q (values_owned (v ∷ vs)) rest,
              values_owned-cons q v vs,
              count-append q (value_owned v) after,
              count-append q (values_owned vs) rest,
            );
          })
          λ x w₁ h₁. releasing-Holds _ Kind.value_handle x _ _ h₁ (omega arith) (Same-refl _))
        λ _ w₁ h₁. release_values-Holds vs rest h₁

  module _ (empty : ℕ) (s : OcSession)
      (same : s.runtime ≡ ready_runtime p l env memory allocator version) (m : ℕ) where
    clear_outputs-Cleared :
        (outs : Option (List OcTensor)) (ts : List OcTensor) (rest : List Resource) {w : World S}
        → Written outs s.outputs m
        → length ts ≡ m
        → Holds base (outputs_owned ts ++ rest) w
        → Ensures (Cleared base rest m) (clear_outputs api host l empty s outs ts w)
    unfolding clear_outputs
    clear_outputs-Cleared none [] rest wr e h =
        ensures (record { sized = e; empty = refl; held = h })
    clear_outputs-Cleared none (t ∷ ts) rest wr e h = absurd (omega arith)
    clear_outputs-Cleared (some os) ts rest wr e h =
        rw wr (oc_outputs_free-Cleared s ts rest same (omega arith) h)

    free_block :
        (block : Option ℕ) (rest own : List Resource) {w : World S}
        → Holds base own w
        → Same own (opt_owned Kind.heap_block block ++ rest)
        → Ensures (λ _ w'. Holds base rest w') (when_some block (λ b. free host b) w)
    unfolding free
    free_block block rest own h e =
        when_some-Holds Kind.heap_block block _ rest h e
          λ b w₁ h₁. releasing-Holds [] Kind.heap_block b _ _ h₁ tt (Same-refl _)

    pub finish_run-RunEnds :
        (outs : Option (List OcTensor)) (block : Option ℕ) {r : Run S (Exit RunLocals (Unit {0}))}
        → Written outs s.outputs m
        → Ensures
            (Ends base
              (run_owned (opt_owned Kind.heap_block block))
              (OutputsSized m)
              (Finished base (opt_owned Kind.heap_block block) m))
            r
        → Ensures (RunEnds base m) (and_then r (finish_run api host l empty s outs block))
    unfolding finish_run
    finish_run-RunEnds outs block wr (ensures (goes_on {l = v} q)) =
        let blk = opt_owned Kind.heap_block block in
        let owned = outputs_owned v.outputs in
        bind (release_values-Holds v.values (owned ++ blk) q.held) λ _ w₁ h₁.
          bind (free_block block owned (owned ++ blk) h₁ (Same-append_comm owned blk))
            λ _ w₂ h₂. ensures (run_ok q.outs_sized q.given h₂)
    finish_run-RunEnds outs block wr (ensures (fails {st} {l = v} sized h)) =
        let blk = opt_owned Kind.heap_block block in
        let owned = outputs_owned v.outputs in
        let stat = resource Kind.status_handle st in
        bind
          (release_values-Holds v.values (stat ∷ (owned ++ blk)) (
            Holds-Same h
              (Same-sym (Same-front stat (values_owned v.values) (owned ++ blk) (Same-refl _)))))
          λ _ w₁ h₁.
            bind
              (free_block block (owned ++ (stat ∷ [])) (stat ∷ (owned ++ blk)) h₁ (record {
                counts = λ q. omega (
                  arith,
                  count-append q owned blk,
                  count-append q blk (owned ++ (stat ∷ [])),
                  count-append q owned (stat ∷ []),
                );
              }))
              λ _ w₂ h₂.
                bind (clear_outputs-Cleared outs v.outputs (stat ∷ []) wr sized h₂)
                  λ ts w₃ c. ensures (run_bad c)
