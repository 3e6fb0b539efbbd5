-- ===== src/Bridge/Run/Collect.antt =====
-- The loop of `run` that moves the values to the outputs and describes them.
use onnxcraft.Common.{
  ℕ, zero, suc, ◌+◌, ◌≤◌, ◌<◌, ◌≡◌, refl, sym, ◌∙◌, ◌⊎◌, inl, inr, List, [], ◌∷◌, Option, none,
  some, arith, length, length-set, get_elem?, get_elem?-some, set, ap, subst,
}
use onnxcraft.Native.Ledger.{Kind, Resource, resource, count}
use onnxcraft.Native.Machine.{World, deref}
use onnxcraft.Native.Rules.{Ensures, ensures, Holds, Holds-Same, Live}
use onnxcraft.Native.Calls.{asking-Answered, reading-Holds, minting-Holds}
use onnxcraft.Native.Flow.{
  Ends, Ends-mono, goes_on, then_check, then_plain, then_guard, then_flow, continue_with, arrived,
}
use onnxcraft.Ort.Api.{OrtApi}
use onnxcraft.Bridge.Types.{OcTensor}
use onnxcraft.Bridge.Run.Body.{
  RunLocals, not_cpu, write_output, take_value, describe_output, collect,
}
use onnxcraft.Bridge.Run.Owned.{
  value_owned, values_owned-set, outputs_owned-set, outputs_owned-live, get_elem?-set,
  get_elem?-set_other,
}
use onnxcraft.Bridge.Run.Create.{run_owned, run_owned-count, OutputsSized}

-- Each output before `i` holds a value, and none from `k` on.
abbrev pub Given : ℕ → List OcTensor → Type 0
Given i ts = (j : ℕ) (t : OcTensor) → j < i → get_elem? ts j ≡ some t → (v : ℕ) × (t.value ≡ some v)

abbrev pub Fresh : ℕ → List OcTensor → Type 0
Fresh k ts = (j : ℕ) (t : OcTensor) → k ≤ j → get_elem? ts j ≡ some t → t.value ≡ none

-- The entries of `values` from `k` on are values.
abbrev pub Ready : ℕ → ℕ → List (Option ℕ) → Type 0
Ready k n vs = (j : ℕ) → k ≤ j → j < n → (v : ℕ) × (get_elem? vs j ≡ some (some v))

pub record Collecting {S : Type 0} (base blk : List Resource) (inputs n m i : ℕ) (u : Unit {0})
    (l : RunLocals) (w : World S) : Type 0 where
  pub sized : length l.values ≡ n
  pub ready : Ready (inputs + i) n l.values
  pub outs_sized : length l.outputs ≡ m
  pub given : Given i l.outputs
  pub fresh : Fresh i l.outputs
  pub held : Holds base (run_owned blk l) w

-- In a round, with its value in the output.
record Taken {S : Type 0} (base blk : List Resource) (inputs n m i v : ℕ) (l : RunLocals)
    (w : World S) : Type 0 where
  sized : length l.values ≡ n
  ready : Ready (inputs + (i + 1)) n l.values
  outs_sized : length l.outputs ≡ m
  given : Given i l.outputs
  fresh : Fresh (i + 1) l.outputs
  here : (t : OcTensor) × (get_elem? l.outputs i ≡ some t) × (t.value ≡ some v)
  held : Holds base (run_owned blk l) w

Given-set : (i : ℕ) (ts : List OcTensor) (t : OcTensor) → Given i ts → Given i (set ts i t)
Given-set i ts t g j x small e =
    g j x small (sym (get_elem?-set_other ts i j t (λ d. absurd (omega arith))) ∙ e)

Fresh-set :
    (i k : ℕ) (ts : List OcTensor) (t : OcTensor) → i < k → Fresh k ts → Fresh k (set ts i t)
Fresh-set i k ts t before f j x large e =
    f j x large (sym (get_elem?-set_other ts i j t (λ d. absurd (omega arith))) ∙ e)

split_last : (i j : ℕ) → j < i + 1 → (j < i) ⊎ (j ≡ i)
split_last i j h = grind arith

module _ {S : Type 0} (api : OrtApi S) (a empty : ℕ) {base : List Resource} (blk : List Resource)
    (inputs n m : ℕ) (served : 1 ≤ count (resource Kind.library_handle a) base) where
  write_output-Ends :
      (i v : ℕ) (f : OcTensor → OcTensor) {l : RunLocals} {w : World S}
      → ((t : OcTensor) → (f t).value ≡ t.value)
      → Taken base blk inputs n m i v l w
      → Ensures
          (Ends base (run_owned blk) (OutputsSized m) (λ _. Taken base blk inputs n m i v))
          (write_output i f l w)
  unfolding write_output continue_with deref arrived
  write_output-Ends i v f {l} keeps q =
      let (t, at, has) = q.here in
      let l' : RunLocals = record l { outputs = set l.outputs i (f t) } in
      rw at (
        ensures (
          goes_on (record {
            sized = q.sized;
            ready = q.ready;
            outs_sized = length-set l.outputs i (f t) ∙ q.outs_sized;
            given = Given-set i l.outputs (f t) q.given;
            fresh = Fresh-set i (i + 1) l.outputs (f t) (omega arith) q.fresh;
            here = (f t, get_elem?-set l.outputs i t (f t) at, keeps t ∙ has);
            held = Holds-Same q.held (record {
              counts = λ r. omega (
                arith,
                outputs_owned-set r l.outputs i t (f t) at,
                ap (λ z. count r (value_owned z)) (keeps t),
                run_owned-count r blk l,
                run_owned-count r blk l',
              );
            });
          })))

  take_value-Ends :
      (i : ℕ) {u : Unit {0}} {l : RunLocals} {w : World S}
      → i < m
      → inputs + i < n
      → Collecting base blk inputs n m i u l w
      → Ensures
          (Ends base (run_owned blk) (OutputsSized m) (Taken base blk inputs n m i))
          (take_value inputs i l w)
  unfolding take_value write_output continue_with deref arrived
  take_value-Ends i {l = l} small fits q =
      let (v, at) = q.ready (inputs + i) (omega arith) fits in
      let (t, at') = get_elem?-some l.outputs i (omega (arith, q.outs_sized)) in
      let t' : OcTensor = record t { value = some v } in
      let l' : RunLocals = record {
        values = set l.values (inputs + i) none;
        outputs = set l.outputs i t';
      } in
      rw (at, at')
        (ensures (
          goes_on (record {
            sized = length-set l.values (inputs + i) none ∙ q.sized;
            ready = λ j lo hi.
                let (x, e) = q.ready j (omega arith) hi in
                (
                  x,
                  get_elem?-set_other l.values (inputs + i) j none (λ d. absurd (omega arith)) ∙ e,
                );
            outs_sized = length-set l.outputs i t' ∙ q.outs_sized;
            given = Given-set i l.outputs t' q.given;
            fresh =
                Fresh-set i (i + 1) l.outputs t' (omega arith)
                  (λ j x large e. q.fresh j x (omega arith) e);
            here = (t', get_elem?-set l.outputs i t t' at', refl);
            held = Holds-Same q.held (record {
              counts = λ r. omega (
                arith,
                values_owned-set r l.values (inputs + i) (some v) none at,
                outputs_owned-set r l.outputs i t t' at',
                ap (λ z. count r (value_owned z)) (q.fresh i t (omega arith) at'),
                run_owned-count r blk l,
                run_owned-count r blk l',
              );
            });
          })))

  -- A call that owns nothing new.
  Taken-at :
      (i v : ℕ) {l : RunLocals} {w w' : World S}
      → Taken base blk inputs n m i v l w
      → Holds base (run_owned blk l) w'
      → Taken base blk inputs n m i v l w'
  Taken-at i v q h = record {
    sized = q.sized;
    ready = q.ready;
    outs_sized = q.outs_sized;
    given = q.given;
    fresh = q.fresh;
    here = q.here;
    held = h;
  }

  Taken-Live :
      (i v : ℕ) {l : RunLocals} {w : World S}
      → Taken base blk inputs n m i v l w
      → Live base
          (run_owned blk l)
          (resource Kind.library_handle a ∷ resource Kind.value_handle v ∷ [])
  Taken-Live i v {l} q =
      let (t, at, has) = q.here in
      omega (
        arith,
        outputs_owned-live l.outputs i t v at has,
        run_owned-count (resource Kind.value_handle v) blk l,
      )

  Taken-Collecting :
      (i v : ℕ) {l : RunLocals} {w : World S}
      → Taken base blk inputs n m i v l w
      → Collecting base blk inputs n m (i + 1) tt l w
  Taken-Collecting i v {l} q = record {
    sized = q.sized;
    ready = q.ready;
    outs_sized = q.outs_sized;
    given = λ j x small e. elim (split_last i j small) [
      | inl before ↦ q.given j x before e
      | inr now ↦ let (t, at, has) = q.here in let same : t ≡ x = cc in (v, cc)
    ];
    fresh = q.fresh;
    held = q.held;
  }

  describe_output-Ends :
      (i v : ℕ) {l : RunLocals} {w : World S}
      → Taken base blk inputs n m i v l w
      → Ensures
          (Ends base (run_owned blk) (OutputsSized m) (Collecting base blk inputs n m (i + 1)))
          (describe_output api a empty i v l w)
  unfolding describe_output continue_with
  describe_output-Ends i v {l} q =
      let both = resource Kind.library_handle a ∷ resource Kind.value_handle v ∷ [] in
      let live = Taken-Live i v q in
      then_check _ _ q.outs_sized (asking-Answered both _ q.held live) λ memory w₁ h₁.
        then_plain _ _ (reading-Holds both _ h₁ live) λ device w₂ h₂.
          then_guard (not_cpu device) _ _ _ _ q.outs_sized
            (minting-Holds _ Kind.status_handle _ h₂ (omega arith))
            λ on_cpu. then_check _ _ q.outs_sized (asking-Answered both _ h₂ live) λ d w₃ h₃.
              then_flow (write_output-Ends i v _ (λ t. refl) (Taken-at i v q h₃)) λ _ l₁ w₄ q₁.
                then_check _ _ q₁.outs_sized (asking-Answered both _ q₁.held (Taken-Live i v q₁))
                  λ bytes w₅ h₅.
                    then_flow (write_output-Ends i v _ (λ t. refl) (Taken-at i v q₁ h₅))
                      λ _ l₂ w₆ q₂.
                        then_check _ _ q₂.outs_sized
                          (asking-Answered both _ q₂.held (Taken-Live i v q₂))
                          λ p w₇ h₇.
                            Ends-mono (write_output-Ends i v _ (λ t. refl) (Taken-at i v q₂ h₇))
                              λ _ l₃ w₈ q₃. Taken-Collecting i v q₃

  pub collect-Ends :
      (k i : ℕ) {u : Unit {0}} {l : RunLocals} {w : World S}
      → i + k ≡ m
      → inputs + m ≡ n
      → Collecting base blk inputs n m i u l w
      → Ensures
          (Ends base (run_owned blk) (OutputsSized m) (Collecting base blk inputs n m m))
          (collect api a empty inputs k i l w)
  unfolding collect
  collect-Ends zero i {l = l} {w} total sum q =
      let done_all : i ≡ m = omega arith in
      ensures (goes_on (subst (λ j. Collecting base blk inputs n m j tt l w) done_all q))
  collect-Ends (suc k) i total sum q =
      then_flow (take_value-Ends i (omega arith) (omega arith) q) λ v l₁ w₁ q₁.
        then_flow (describe_output-Ends i v q₁)
          λ _ l₂ w₂ q₂. collect-Ends k (i + 1) (omega arith) sum q₂
