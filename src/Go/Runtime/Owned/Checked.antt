-- ===== src/Go/Runtime/Owned/Checked.antt =====
-- What the first checks of `load` accept, those of the numbers of threads and of the optimization;
-- that the entries of the configuration and the providers are refused later is left to them.
use onnxcraft.Common.{
  ℕ, ℤ, pos, negsuc, ◌≤◌, ◌<◌, ◌≡◌, refl, subst, ◌⊎◌, inl, inr, ◌↔◌, arith, leb, Bool-cases, true,
  if◌then◌else◌,
}
use onnxcraft.Bridge.Types.{OcOptions}
use onnxcraft.Go.Result.{good, bad}
use onnxcraft.Go.Runtime.{GoError, SessionOptions, thread_count, graph_level, oc_options_of}

-- A number of threads that an `int` of C holds.
abbrev pub IsThreads : ℤ → Type 0
IsThreads (pos n) = n ≤ 2147483647
IsThreads (negsuc n) = ⊥

-- The `oc_options` that stand for the options.
pub record Checked (o : SessionOptions) (config : OcOptions) : Type 0 where
  pub intra : IsThreads o.intra_op_threads
  pub intra_same : config.intra_threads ≡ o.intra_op_threads
  pub inter : IsThreads o.inter_op_threads
  pub inter_same : config.inter_threads ≡ o.inter_op_threads
  pub parallel : config.parallel ≡ (if o.parallel then pos 1 else pos 0)
  pub optimization : config.optimization ≡ pos o.optimization
  pub level : o.optimization < 4

thread_count-cases :
    (t : ℤ)
    → (thread_count t ≡ bad GoError.invalid_options) ⊎ ((thread_count t ≡ good t) × IsThreads t)
unfolding thread_count
thread_count-cases (negsuc n) = inl refl
thread_count-cases (pos n) = elim (Bool-cases (leb n 2147483647)) [
  | inl t ↦ rw t (inr (refl, ground arith))
  | inr t ↦ rw t (inl refl)
]

graph_level-cases :
    (n : ℕ) → (graph_level n ≡ bad GoError.invalid_options) ⊎ ((graph_level n ≡ good n) × (n < 4))
unfolding graph_level
graph_level-cases n = elim (Bool-cases (leb n 3)) [
  | inl t ↦ rw t (inr (refl, ground arith))
  | inr t ↦ rw t (inl refl)
]

pub oc_options_of-cases :
    (o : SessionOptions)
    → (oc_options_of o ≡ bad GoError.invalid_options)
      ⊎ ((config : OcOptions) × (oc_options_of o ≡ good config) × Checked o config)
unfolding oc_options_of
oc_options_of-cases o = elim (thread_count-cases o.intra_op_threads) [
  | inl e ↦ rw e (inl refl)
  | inr (e, i) ↦ rw e (elim (thread_count-cases o.inter_op_threads) [
    | inl e' ↦ rw e' (inl refl)
    | inr (e', j) ↦ rw e' (elim (graph_level-cases o.optimization) [
      | inl g ↦ rw g (inl refl)
      | inr (g, l) ↦ rw g (
          inr (
            _,
            refl,
            record {
              intra = i;
              intra_same = refl;
              inter = j;
              inter_same = refl;
              parallel = refl;
              optimization = refl;
              level = l;
            },
          ))
    ])
  ])
]

thread_count-accepts : (t : ℤ) → IsThreads t → thread_count t ≡ good t
unfolding thread_count
thread_count-accepts (pos n) is =
    let small : leb n 2147483647 ≡ true = ground arith in rw small refl
thread_count-accepts (negsuc n) is = absurd is

graph_level-accepts : (n : ℕ) → n < 4 → graph_level n ≡ good n
unfolding graph_level
graph_level-accepts n lt = let small : leb n 3 ≡ true = ground arith in rw small refl

-- The first checks of `load`, on the numbers of threads and the optimization: they pass exactly where
-- both numbers of threads are from 0 to `math.MaxInt32` and the optimization is one of the four, and
-- then give the `oc_options` that stand for them.
pub oc_options_of_lem :
    (o : SessionOptions) (config : OcOptions) → (oc_options_of o ≡ good config) ↔ Checked o config
unfolding oc_options_of
oc_options_of_lem o config = (there (oc_options_of-cases o), back)
  where
    there :
        (oc_options_of o ≡ bad GoError.invalid_options)
          ⊎ ((found : OcOptions) × (oc_options_of o ≡ good found) × Checked o found)
        → oc_options_of o ≡ good config
        → Checked o config
    there (inl e) h = cc
    there (inr (found, e, checked)) h =
        let same : found ≡ config = cc in subst (Checked o) same checked

    back : Checked o config → oc_options_of o ≡ good config
    back c =
        rw
          (
            thread_count-accepts o.intra_op_threads c.intra,
            thread_count-accepts o.inter_op_threads c.inter,
            graph_level-accepts o.optimization c.level,
          )
          (rw⁻¹ (c.intra_same, c.inter_same, c.parallel, c.optimization) refl)
