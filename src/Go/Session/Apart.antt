-- ===== src/Go/Session/Apart.antt =====
-- The loop of `run` that refuses overlapping outputs is exact.
use mathlib.Core.List.{append_assoc}
use onnxcraft.Common.{
  ℕ, ℕ_discrete, subst, sym, ◌∙◌, length, length-append, get_elem?-append_mid,
  get_elem?-append_front, get_elem?-bound, ◌+◌, ◌≤◌, ◌<◌, ◌≡◌, refl, suc, zero, get_elem?, ◌↔◌,
  Bool, true, false, ◌||◌, inl, inr, Bool-cases, List, [], ◌∷◌, ◌++◌, none, some, arith,
}
use onnxcraft.Go.Session.Operand.{Operand, overlaps, overlaps_any, find_overlap}
use onnxcraft.Go.Session.Disjoint.{IsPlaced, Disjoint, not_both, overlaps-Disjoint}

-- Every tensor of the list lies within the address space.
abbrev pub AllPlaced : List Operand → Type 0
AllPlaced ts = (j : ℕ) (u : Operand) → get_elem? ts j ≡ some u → IsPlaced u

abbrev AllDisjoint : Operand → List Operand → Type 0
AllDisjoint t us = (j : ℕ) (u : Operand) → get_elem? us j ≡ some u → Disjoint t u

AllDisjoint-cons :
    (t u : Operand) (us : List Operand) → Disjoint t u → AllDisjoint t us → AllDisjoint t (u ∷ us)
AllDisjoint-cons t u us first rest zero v e = let same : u ≡ v = cc in subst (Disjoint t) same first
AllDisjoint-cons t u us first rest (suc j) v e = rest j v e

neither : (b c : Bool) → b || c ≡ false → (b ≡ false) × (c ≡ false)
neither false false h = (refl, refl)
neither false true h = cc
neither true c h = cc

overlaps_any-Disjoint :
    (t : Operand) (us : List Operand)
    → IsPlaced t
    → AllPlaced us
    → (overlaps_any t us ≡ false) ↔ AllDisjoint t us
unfolding overlaps_any
overlaps_any-Disjoint t [] p ps = (λ _ j u e. absurd cc, λ _. refl)
overlaps_any-Disjoint t (u ∷ us) p ps =
    let first = overlaps-Disjoint t u p (ps 0 u refl) in
    let others = overlaps_any-Disjoint t us p (λ j v e. ps (suc j) v e) in
    (
      λ none.
          let n = neither (overlaps t u) (overlaps_any t us) none in
          AllDisjoint-cons t u us (first.0 n.0) (others.0 n.1),
      λ all. rw (first.1 (all 0 u refl), others.1 (λ j v e. all (suc j) v e)) refl,
    )

-- From index `k` on, every tensor is disjoint from all before it.
abbrev pub Apart : ℕ → List Operand → Type 0
Apart k ts =
    (i j : ℕ) (t u : Operand)
    → j < i
    → k ≤ i
    → get_elem? ts i ≡ some t
    → get_elem? ts j ≡ some u
    → Disjoint t u

Apart-append :
    (earlier : List Operand) (out : Operand) (outs : List Operand)
    → Apart (length earlier) (earlier ++ (out ∷ outs))
      ↔ (AllDisjoint out earlier × Apart (length earlier + 1) (earlier ++ (out ∷ outs)))
Apart-append earlier out outs = (there, back)
  where
    here : get_elem? (earlier ++ (out ∷ outs)) (length earlier) ≡ some out
    here = get_elem?-append_mid earlier out outs (length earlier) refl

    there :
        Apart (length earlier) (earlier ++ (out ∷ outs))
        → AllDisjoint out earlier × Apart (length earlier + 1) (earlier ++ (out ∷ outs))
    there apart = (
      λ j u e.
          let small = get_elem?-bound earlier j u e in
          apart (length earlier) j out u small (omega arith) here
            (get_elem?-append_front earlier (out ∷ outs) j small ∙ e),
      λ i j t u lt le e e'. apart i j t u lt (omega arith) e e',
    )

    back :
        AllDisjoint out earlier × Apart (length earlier + 1) (earlier ++ (out ∷ outs))
        → Apart (length earlier) (earlier ++ (out ∷ outs))
    back h i j t u lt le e e' = elim (ℕ_discrete i (length earlier)) [
      | yes at ↦
          let small : j < length earlier = omega (arith, at) in
          let here' : get_elem? (earlier ++ (out ∷ outs)) i ≡ some out = rw at here in
          let same : out ≡ t = cc in
          let found : get_elem? earlier j ≡ some u =
            sym (get_elem?-append_front earlier (out ∷ outs) j small) ∙ e' in
          subst (λ x. Disjoint x u) same (h.0 j u found)
      | no ne ↦ h.1 i j t u lt (omega (arith, ne)) e e'
    ]

-- The loop finds nothing exactly where no output shares a byte with a tensor before it.
pub find_overlap-Apart :
    (earlier : List Operand) (i : ℕ) (outs : List Operand)
    → AllPlaced (earlier ++ outs)
    → (find_overlap earlier i outs ≡ none) ↔ Apart (length earlier) (earlier ++ outs)
unfolding find_overlap
find_overlap-Apart earlier i [] placed = (
  λ _ i j t u lt le e e'.
      absurd (omega (arith, get_elem?-bound (earlier ++ []) i t e, length-append earlier [])),
  λ _. refl,
)
find_overlap-Apart earlier i (out ∷ outs) placed =
    let whole = earlier ++ (out ∷ outs) in
    let longer = earlier ++ (out ∷ []) in
    let same : longer ++ outs ≡ whole = append_assoc earlier (out ∷ []) outs in
    let more : length longer ≡ length earlier + 1 = length-append earlier (out ∷ []) in
    let here : get_elem? whole (length earlier) ≡ some out =
      get_elem?-append_mid earlier out outs (length earlier) refl in
    let first = overlaps_any-Disjoint out earlier (placed (length earlier) out here) (λ j u e.
      placed j u
        (get_elem?-append_front earlier (out ∷ outs) j (get_elem?-bound earlier j u e) ∙ e)) in
    let rest : (find_overlap longer (i + 1) outs ≡ none) ↔ Apart (length earlier + 1) whole =
      (rw (more, same) at
        (find_overlap-Apart longer (i + 1) outs (subst AllPlaced (sym same) placed))) in
    let split = Apart-append earlier out outs in
    elim (Bool-cases (overlaps_any out earlier)) [
      | inl e ↦ rw e (λ h. absurd cc, λ apart. absurd (not_both e (first.1 (split.0 apart).0)))
      | inr e ↦ rw e (λ h. split.1 (first.0 e, rest.0 h), λ apart. rest.1 (split.0 apart).1)
    ]
