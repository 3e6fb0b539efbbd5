-- ===== src/Go/Session/Checked.antt =====
-- The checks of `run` on its tensors are exact.
use onnxcraft.Common.{
  ℕ, ◌≡◌, ◌↔◌, refl, sym, ◌∙◌, ◌⊎◌, inl, inr, Bool, true, false, not, ◌&&◌, Bool-cases, List, ◌++◌,
  Option, none, some, arith, ◌==◌, length,
}
use onnxcraft.Go.Result.{Result, good, bad}
use onnxcraft.Go.Runtime.{GoError, Session}
use onnxcraft.Go.Session.Operand.{Operand, find_overlap}
use onnxcraft.Go.Session.Describe.{no_overlap, check_operands}
use onnxcraft.Go.Session.Apart.{AllPlaced, Apart, find_overlap-Apart}

no_overlap-cases :
    (found : Option ℕ)
    → ((e : GoError) × (no_overlap found ≡ bad e)) ⊎ ((no_overlap found ≡ good tt) × (found ≡ none))
no_overlap-cases none = inr (refl, refl)
no_overlap-cases (some i) = inl (_, refl)

equal_lem : {a b : ℕ} → (a == b) ≡ true → a ≡ b
equal_lem e = ground arith

counted : (b : Bool) (m n : ℕ) → b && not (m == n) ≡ false → b ≡ true → m ≡ n
counted false m n f i = absurd cc
counted true m n f i = elim (Bool-cases (m == n)) [
  | inl g ↦ equal_lem g
  | inr g ↦ (let wrong : true ≡ false = rw g at f in absurd cc)
]

-- What the checks leave.
pub check_operands-cases :
    (s : Session) (into : Bool) (inputs outputs : List Operand)
    → ((e : GoError) × (check_operands s into inputs outputs ≡ bad e))
      ⊎ ((check_operands s into inputs outputs ≡ good tt)
          × (length inputs ≡ length s.inputs)
          × (into ≡ true → length outputs ≡ length s.outputs)
          × (find_overlap inputs 0 outputs ≡ none))
unfolding check_operands
check_operands-cases s into inputs outputs = elim (Bool-cases (length inputs == length s.inputs)) [
  | inr e ↦ rw e (inl (_, refl))
  | inl e ↦ rw e (elim (Bool-cases (into && not (length outputs == length s.outputs))) [
    | inl f ↦ rw f (inl (_, refl))
    | inr f ↦ rw f (elim (no_overlap-cases (find_overlap inputs 0 outputs)) [
      | inl (x, g) ↦ rw g (inl (_, refl))
      | inr (g, h) ↦
          rw g (inr (refl, ground arith, counted into (length outputs) (length s.outputs) f, h))
    ])
  ])
]

counts : (b : Bool) (m n : ℕ) → (b ≡ true → m ≡ n) → b && not (m == n) ≡ false
counts false m n e = refl
counts true m n e = let same : (m == n) ≡ true = (let h = e refl in ground arith) in rw same refl

not_good : {e : GoError} → ◌≡◌ {A = Result GoError (Unit {0})} (bad e) (good tt) → ⊥
not_good e = cc

-- For tensors within the address space: `run` goes on exactly where there are as many inputs as the
-- model has, for `RunInto` as many outputs as well, and no output shares a byte with an input or with
-- an output before it.
pub check_operands_lem :
    (s : Session) (into : Bool) (inputs outputs : List Operand)
    → AllPlaced (inputs ++ outputs)
    → (check_operands s into inputs outputs ≡ good tt) ↔ (
        (length inputs ≡ length s.inputs)
        × (into ≡ true → length outputs ≡ length s.outputs)
        × Apart (length inputs) (inputs ++ outputs))
unfolding check_operands
check_operands_lem s into inputs outputs placed =
    let apart = find_overlap-Apart inputs 0 outputs placed in
    (
      λ ok. (elim (check_operands-cases s into inputs outputs) [
        | inl (e, same) ↦ absurd (not_good (sym same ∙ ok))
        | inr (same, reads, writes, free) ↦ (reads, writes, apart.0 free)
      ]),
      λ h.
          let reads : (length inputs == length s.inputs) ≡ true = (let e = h.0 in ground arith) in
          rw (reads, counts into (length outputs) (length s.outputs) h.1, apart.1 h.2) refl,
    )
