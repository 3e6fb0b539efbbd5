-- ===== src/Bridge/Run/Create.antt =====
-- The loop of `run` that makes values of the tensors.
use onnxcraft.Common.{
  ℕ, zero, suc, ◌+◌, ◌-◌, ◌≤◌, ◌<◌, ◌≡◌, inl, inr, false, List, ◌++◌, Option, none, some, arith,
  length, length-set, get_elem?, get_elem?-some, set, ltb, Bool-cases, ap, ◌∙◌,
}
use onnxcraft.Native.Ledger.{Kind, Resource, resource, count, count-append}
use onnxcraft.Native.Machine.{World, and_then, deref}
use onnxcraft.Native.Rules.{Ensures, ensures, Holds, Holds-Same}
use onnxcraft.Native.Calls.{creating-Answered}
use onnxcraft.Native.Flow.{Ends, goes_on, then_check, then_flow, continue_with, arrived}
use onnxcraft.Ort.Api.{OrtApi}
use onnxcraft.Ort.Calls.{values_owned}
use onnxcraft.Bridge.Types.{OcTensor}
use onnxcraft.Bridge.Run.Body.{RunLocals, create_value, create_values}
use onnxcraft.Bridge.Run.Owned.{outputs_owned, values_owned-set, get_elem?-set_other}

-- What the variables of `run` own, next to the block of `values`.
abbrev pub run_owned : List Resource → RunLocals → List Resource
run_owned blk l = values_owned l.values ++ (outputs_owned l.outputs ++ blk)

pub run_owned-count :
    (q : Resource) (blk : List Resource) (l : RunLocals)
    → count q (run_owned blk l)
      ≡ count q (values_owned l.values) + (count q (outputs_owned l.outputs) + count q blk)
run_owned-count q blk l = omega (
  arith,
  count-append q (values_owned l.values) (outputs_owned l.outputs ++ blk),
  count-append q (outputs_owned l.outputs) blk,
)

-- The entries from `i` on are still NULL, and the outputs are as they were.
pub record Creating (n i : ℕ) (outs : List OcTensor) (l : RunLocals) : Type 0 where
  pub sized : length l.values ≡ n
  pub clear : (j : ℕ) → i ≤ j → j < n → get_elem? l.values j ≡ some none
  pub kept : l.outputs ≡ outs

pub record MadeOne {S : Type 0} (base blk : List Resource) (n i : ℕ) (outs : List OcTensor)
    (u : Unit {0}) (l : RunLocals) (w : World S) : Type 0 where
  pub state : Creating n i outs l
  pub held : Holds base (run_owned blk l) w

-- The values are made.
pub record Created {S : Type 0} (base blk : List Resource) (n : ℕ) (outs : List OcTensor)
    (u : Unit {0}) (l : RunLocals) (w : World S) : Type 0 where
  pub sized : length l.values ≡ n
  pub kept : l.outputs ≡ outs
  pub held : Holds base (run_owned blk l) w

-- What `oc_outputs_free` needs of the variables.
abbrev pub OutputsSized : ℕ → RunLocals → Type 0
OutputsSized m l = length l.outputs ≡ m

-- The arrays have the lengths that `run` reads.
abbrev pub Fits : ℕ → Option (List OcTensor) → Type 0
Fits k none = Unit
Fits k (some ps) = length ps ≡ k

module _ {S : Type 0} (api : OrtApi S) (a empty memory : ℕ) {base : List Resource}
    (blk : List Resource) (n : ℕ) (outs : List OcTensor)
    (served : 1 ≤ count (resource Kind.library_handle a) base)
    (placed : 1 ≤ count (resource Kind.memory_info_handle memory) base) where
  create_value-Ends :
      (i : ℕ) (t : OcTensor) {l : RunLocals} {w : World S}
      → i < n
      → Creating n i outs l
      → Holds base (run_owned blk l) w
      → Ensures
          (Ends base (run_owned blk) (OutputsSized (length outs)) (MadeOne base blk n (i + 1) outs))
          (create_value api a empty (some memory) i (some t) l w)
  unfolding create_value continue_with deref arrived
  create_value-Ends i t {l} small c h =
      then_check _ _ (ap length c.kept) (creating-Answered _ _ _ h (omega arith)) λ v w₁ h₁.
        ensures (
          goes_on (record {
            state = record {
              sized = omega (arith, length-set l.values i (some v), c.sized);
              clear = λ j lo hi.
                  get_elem?-set_other l.values i j (some v) (λ e. absurd (omega arith))
                  ∙ c.clear j (omega arith) hi;
              kept = c.kept;
            };
            held = Holds-Same h₁ (record {
              counts = λ q. omega (
                arith,
                values_owned-set q l.values i none (some v) (c.clear i (omega arith) small),
                run_owned-count q blk l,
                run_owned-count q blk (record l { values = set l.values i (some v) }),
              );
            });
          }))

  module _ (inputs : ℕ) (ts : List OcTensor) (reads : length ts ≡ inputs) where
    next-value :
        (pre : Option (List OcTensor)) (k i : ℕ) (t : OcTensor) {l : RunLocals} {w : World S}
        → i < n
        → Creating n i outs l
        → Holds base (run_owned blk l) w
        → ((l' : RunLocals) (w' : World S)
            → Creating n (i + 1) outs l'
            → Holds base (run_owned blk l') w'
            → Ensures
                (Ends base (run_owned blk) (OutputsSized (length outs)) (Created base blk n outs))
                (create_values api a empty (some memory) inputs ts pre k (i + 1) l' w'))
        → Ensures
            (Ends base (run_owned blk) (OutputsSized (length outs)) (Created base blk n outs))
            (and_then
              (create_value api a empty (some memory) i (some t) l w)
              (continue_with λ _. create_values api a empty (some memory) inputs ts pre k (i + 1)))
    next-value pre k i t small c h rest =
        then_flow (create_value-Ends i t small c h) λ u l' w' q. rest l' w' q.state q.held

    behind_inputs :
        (pre : Option (List OcTensor)) (k i : ℕ) {l : RunLocals} {w : World S}
        → Fits (n - inputs) pre
        → ltb i inputs ≡ false
        → i < n
        → Creating n i outs l
        → Holds base (run_owned blk l) w
        → ((l' : RunLocals) (w' : World S)
            → Creating n (i + 1) outs l'
            → Holds base (run_owned blk l') w'
            → Ensures
                (Ends base (run_owned blk) (OutputsSized (length outs)) (Created base blk n outs))
                (create_values api a empty (some memory) inputs ts pre k (i + 1) l' w'))
        → Ensures
            (Ends base (run_owned blk) (OutputsSized (length outs)) (Created base blk n outs))
            (create_values api a empty (some memory) inputs ts pre (suc k) i l w)
    unfolding create_values
    behind_inputs none k i fits e small c h rest =
        rw e (ensures (goes_on (record { sized = c.sized; kept = c.kept; held = h })))
    behind_inputs (some ps) k i fits e small c h rest =
        let (t, at) = get_elem?-some ps (i - inputs) (ground arith) in
        rw (e, at) (next-value (some ps) k i t small c h rest)

    pub create_values-Ends :
        (pre : Option (List OcTensor)) (k i : ℕ) {l : RunLocals} {w : World S}
        → Fits (n - inputs) pre
        → i + k ≡ n
        → Creating n i outs l
        → Holds base (run_owned blk l) w
        → Ensures
            (Ends base (run_owned blk) (OutputsSized (length outs)) (Created base blk n outs))
            (create_values api a empty (some memory) inputs ts pre k i l w)
    unfolding create_values
    create_values-Ends pre zero i fits total c h =
        ensures (goes_on (record { sized = c.sized; kept = c.kept; held = h }))
    create_values-Ends pre (suc k) i {l} {w} fits total c h = elim (Bool-cases (ltb i inputs)) [
      | inl e ↦
          let (t, at) = get_elem?-some ts i (ground arith) in
          rw (e, at)
            (next-value pre k i t (omega arith) c h
              λ l' w' c' h'. create_values-Ends pre k (i + 1) fits (omega arith) c' h')
      | inr e ↦
          behind_inputs pre k i fits e (omega arith) c h
            λ l' w' c' h'. create_values-Ends pre k (i + 1) fits (omega arith) c' h'
    ]
