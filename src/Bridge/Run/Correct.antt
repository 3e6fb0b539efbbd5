-- ===== src/Bridge/Run/Correct.antt =====
-- How `oc_run` and `oc_run_into` end.
use onnxcraft.Common.{
  ℕ, ◌+◌, ◌-◌, ◌*◌, ◌/◌, ◌%◌, ◌^◌, ◌≤◌, ◌<◌, ◌≡◌, refl, sym, ap, subst, true, false, List, [], ◌++◌,
  Option, none, some, arith, length, length-replicate, replicate, leb, Bool, String,
}
use onnxcraft.Native.Ledger.{Kind, Resource, resource, count}
use onnxcraft.Native.Machine.{World, deref}
use onnxcraft.Native.Rules.{Ensures, ensures, bind, Holds, Holds-Same, Live, opt_owned}
use onnxcraft.Native.Calls.{minting-Holds, allocating-Holds}
use onnxcraft.Native.Flow.{Ends, Ends-mono, goes_on, then_flow, continue_with, arrived}
use onnxcraft.Ort.Api.{OrtApi, Host}
use onnxcraft.Bridge.Types.{OcPort, OcSession, OcTensor}
use onnxcraft.Bridge.Run.Body.{RunLocals, create_values, collect, run_body}
use onnxcraft.Bridge.Run.Defs.{
  array_of, entries, null_pointers, local_values, run_in, run_block, calloc_pointers, run_sized,
  run, oc_run, oc_run_into,
}
use onnxcraft.Bridge.Run.Owned.{outputs_owned, values_owned-replicate}
use onnxcraft.Bridge.Run.Create.{
  run_owned, run_owned-count, Created, OutputsSized, Fits, create_values-Ends,
}
use onnxcraft.Bridge.Run.Collect.{Fresh, collect-Ends}
use onnxcraft.Bridge.Run.Finish.{RunEnds, run_bad, Finished, Written, finish_run-RunEnds}
use onnxcraft.Bridge.Run.Arrays.{outputs_owned-Fresh, replicate-clear, entries-replicate}
use onnxcraft.Bridge.Run.Values.{Answer, open_session, run_values-Ends}

module _ (p l env memory allocator : ℕ) (version : String) (self h inputs outputs : ℕ)
    (ports : Option ℕ) (ps : List OcPort) (names : Option ℕ) (ns : List (Option ℕ)) where
  abbrev the_session : OcSession
  the_session =
      open_session p l env memory allocator version self h inputs outputs ports ps names ns

  -- The body ends well, for the variables it starts with.
  abbrev Body :
      {S : Type 0}
      → OrtApi S
      → (empty : ℕ) → List Resource
      → Option ℕ
      → List OcTensor
      → (pre outs : Option (List OcTensor)) → Type 0
  Body {S} api empty base options ts pre outs =
      (blk : List Resource) (w : World S)
      → Holds base blk w
      → Ensures
          (Ends base (run_owned blk) (OutputsSized (length (array_of outs)))
            (Finished base blk (length (array_of outs))))
          (run_body api l empty the_session options ts pre (inputs + outputs)
            (record { values = replicate (inputs + outputs) none; outputs = array_of outs }) w)

  module _ {S : Type 0} (api : OrtApi S) (host : Host S) (empty : ℕ) {base : List Resource}
      (options : Option ℕ) (small : inputs + outputs < 2 ^ 64)
      (served : 1 ≤ count (resource Kind.library_handle l) base)
      (placed : 1 ≤ count (resource Kind.memory_info_handle memory) base)
      (alive : 1 ≤ count (resource Kind.session_handle h) base)
      (given : Live base [] (opt_owned Kind.run_options_handle options)) where
    body-Ends :
        (ts : List OcTensor) (pre : Option (List OcTensor)) (os : List OcTensor)
        (blk : List Resource) {w : World S}
        → length ts ≡ inputs
        → Fits (inputs + outputs - inputs) pre
        → outputs_owned os ≡ []
        → Holds base blk w
        → Ensures
            (Ends base
              (run_owned blk)
              (OutputsSized (length os))
              (Created base blk (inputs + outputs) os))
            (create_values api l empty
              (some memory)
              inputs
              ts
              pre
              (inputs + outputs)
              0
              (record { values = replicate (inputs + outputs) none; outputs = os })
              w)
    body-Ends ts pre os blk reads fits unowned held =
        let start : RunLocals = record {
          values = replicate (inputs + outputs) none;
          outputs = os;
        } in
        create_values-Ends api l empty memory blk (inputs + outputs) os served placed inputs ts
          reads pre (inputs + outputs) 0 fits (omega arith)
          (record {
            sized = length-replicate (inputs + outputs) none;
            clear = λ j lo hi. replicate-clear (inputs + outputs) j hi;
            kept = refl;
          })
          (Holds-Same held (record {
            counts = λ q. omega (
              arith,
              run_owned-count q blk start,
              ap (count q) unowned,
              ap (count q) (values_owned-replicate (inputs + outputs)),
            );
          }))

    collected :
        (blk : List Resource) (os : List OcTensor) {u : Unit {0}} {v : RunLocals} {w : World S}
        → length os ≡ outputs
        → Fresh 0 os
        → Answer base blk inputs (inputs + outputs) os u v w
        → Ensures
            (Ends base (run_owned blk) (OutputsSized (length os)) (Finished base blk (length os)))
            (collect api l empty inputs outputs 0 v w)
    collected blk os e fresh q =
        Ends-mono
          (collect-Ends api l empty blk inputs (inputs + outputs) (length os) served outputs 0
            (omega arith) (omega arith)
            (record {
              sized = q.sized;
              ready = λ j lo hi. q.ready j (omega arith) hi;
              outs_sized = ap length q.kept;
              given = λ j t lo e. absurd (omega arith);
              fresh = subst (Fresh 0) (sym q.kept) fresh;
              held = q.held;
            }))
          λ _ v' w' c. record { outs_sized = c.outs_sized; given = c.given; held = c.held }

    output-Body :
        (ts os : List OcTensor)
        → length ts ≡ inputs
        → length os ≡ outputs
        → Fresh 0 os
        → Body api empty base options ts none (some os)
    unfolding run_body continue_with deref arrived
    output-Body ts os reads e fresh blk w held =
        then_flow (body-Ends ts none os blk reads tt (outputs_owned-Fresh os fresh) held)
          λ _ v₁ w₁ c.
            then_flow
              (run_values-Ends p l env memory allocator version self h inputs outputs ports ps names
                ns api host empty options small served placed alive given blk os c)
              λ _ v₂ w₂ q. collected blk os e fresh q

    into-Body :
        (ts os : List OcTensor)
        → length ts ≡ inputs
        → length os ≡ outputs
        → Body api empty base options ts (some os) none
    unfolding run_body continue_with deref arrived
    into-Body ts os reads e blk w held =
        then_flow (body-Ends ts (some os) [] blk reads (omega arith) refl held) λ _ v₁ w₁ c.
          then_flow
            (run_values-Ends p l env memory allocator version self h inputs outputs ports ps names
              ns api host empty options small served placed alive given blk [] c)
            λ _ v₂ w₂ q. ensures (
              goes_on (record {
                outs_sized = ap length q.kept;
                given = λ j t lo e. absurd (omega arith);
                held = q.held;
              }))

    module _ (ts : List OcTensor) (pre outs : Option (List OcTensor))
        (body : Body api empty base options ts pre outs)
        (written : Written outs outputs (length (array_of outs)))
        (unowned : outputs_owned (array_of outs) ≡ []) where
      run_in-RunEnds :
          (array : List (Option ℕ)) (block : Option ℕ) {w : World S}
          → entries (inputs + outputs) array ≡ some (replicate (inputs + outputs) none)
          → Holds base (opt_owned Kind.heap_block block) w
          → Ensures (RunEnds base (length (array_of outs))) (
              run_in api host l empty the_session options ts pre outs
                (inputs + outputs)
                array
                block
                w)
      unfolding run_in deref
      run_in-RunEnds array block enough held = rw enough (
          finish_run-RunEnds api host p l env memory allocator version served empty the_session refl
            (length (array_of outs)) outs block written (body _ _ held))

      run_block-RunEnds :
          (block : Option ℕ) {w : World S}
          → Holds base (opt_owned Kind.heap_block block ++ []) w
          → Ensures (RunEnds base (length (array_of outs))) (
              run_block api host l empty the_session options ts pre outs
                (inputs + outputs)
                (null_pointers ((inputs + outputs) * 8) block)
                w)
      unfolding run_block
      run_block-RunEnds none held =
          bind (minting-Holds _ Kind.status_handle _ held (omega arith))
            λ st w₂ h₂. ensures (run_bad (record { sized = refl; empty = unowned; held = h₂ }))
      run_block-RunEnds (some b) held =
          run_in-RunEnds (replicate ((inputs + outputs) * 8 / 8) none) (some b)
            (entries-replicate (inputs + outputs) ((inputs + outputs) * 8 / 8) none (omega arith))
            held

      -- `local` is taken only where it has enough entries.
      run_sized-RunEnds :
          (fits : Bool) {w : World S}
          → leb (inputs + outputs) 16 ≡ fits
          → Holds base [] w
          → Ensures
              (RunEnds base (length (array_of outs)))
              (run_sized api host empty l the_session options ts pre outs (inputs + outputs) fits w)
      unfolding run_sized calloc_pointers
      run_sized-RunEnds true few held =
          run_in-RunEnds local_values none
            (entries-replicate (inputs + outputs) 16 none (ground arith)) held
      run_sized-RunEnds false many held =
          bind
            {P = λ x w'.
              (block : Option ℕ) × (x ≡ null_pointers ((inputs + outputs) * 8) block)
              × Holds base (opt_owned Kind.heap_block block ++ []) w'}
            (bind (allocating-Holds [] Kind.heap_block _ held tt)
              λ block w₁ h₁. ensures (block, refl, h₁))
            λ x w₁ q. let (block, same, h₁) = q in rw same (run_block-RunEnds block h₁)

      run-RunEnds :
          {w : World S}
          → Holds base [] w
          → Ensures
              (RunEnds base (length (array_of outs)))
              (run api host empty the_session options ts pre outs w)
      unfolding run deref
      run-RunEnds held =
          let exact : (inputs + outputs) % 2 ^ 64 ≡ inputs + outputs = omega arith in
          rw exact (run_sized-RunEnds (leb (inputs + outputs) 16) refl held)

    pub oc_run-RunEnds :
        (ts os : List OcTensor) {w : World S}
        → length ts ≡ inputs
        → length os ≡ outputs
        → Fresh 0 os
        → Holds base [] w
        → Ensures (RunEnds base outputs) (oc_run api host empty the_session options ts os w)
    unfolding oc_run
    oc_run-RunEnds ts os {w} reads e fresh held =
        subst (λ m. Ensures (RunEnds base m) (oc_run api host empty the_session options ts os w)) e
          (run-RunEnds ts none (some os) (output-Body ts os reads e fresh) e
            (outputs_owned-Fresh os fresh) held)

    pub oc_run_into-RunEnds :
        (ts os : List OcTensor) {w : World S}
        → length ts ≡ inputs
        → length os ≡ outputs
        → Holds base [] w
        → Ensures (RunEnds base 0) (oc_run_into api host empty the_session options ts os w)
    unfolding oc_run_into
    oc_run_into-RunEnds ts os reads e held =
        run-RunEnds ts (some os) none (into-Body ts os reads e) refl refl held
