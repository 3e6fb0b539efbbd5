-- ===== src/Go/Session/Operand.antt =====
-- What `run` of session.go checks of its tensors: their number, and that no output overlaps another
-- tensor.
use onnxcraft.Common.{
  ℕ, ◌+◌, ◌*◌, ◌%◌, ◌^◌, ℤ, Bool, false, ◌&&◌, ◌||◌, List, [], ◌∷◌, ◌++◌, Option, none, some,
  if◌then◌else◌, ltb,
}
use onnxcraft.Go.Tensor.{data_type_size}

-- A tensor as `run` sees it: `data_at` is the address of its data, `shape_at` that of its dimensions.
pub record Operand : Type 0 where
  pub data_at : ℕ
  pub shape_at : ℕ
  pub dims : List ℤ
  pub count : ℕ
  pub dtype : ℕ

-- `t.length * t.dtype.size()`
abbrev pub byte_size : Operand → ℕ
byte_size t = t.count * data_type_size t.dtype

-- The address behind the data. `uintptr` wraps.
abbrev pub end_of : Operand → ℕ
end_of t = (t.data_at + byte_size t) % 2 ^ 64

-- `start < end && p < q && start < q && p < end`
unfoldable pub overlaps : (out other : Operand) → Bool
overlaps out other =
    ltb out.data_at (end_of out)
    && (ltb other.data_at (end_of other)
        && (ltb out.data_at (end_of other) && ltb other.data_at (end_of out)))

unfoldable pub overlaps_any : Operand → List Operand → Bool
unfolding overlaps
overlaps_any out [] = false
overlaps_any out (other ∷ others) = overlaps out other || overlaps_any out others

-- The loop over the outputs from index `i` on, of which `earlier` are the inputs and the outputs
-- before: the index of the first that overlaps one of those.
unfoldable pub find_overlap : (earlier : List Operand) → (i : ℕ) → List Operand → Option ℕ
unfolding overlaps_any
find_overlap earlier i [] = none
find_overlap earlier i (out ∷ outs) =
    let rest = find_overlap (earlier ++ (out ∷ [])) (i + 1) outs in
    if overlaps_any out earlier then some i else rest
