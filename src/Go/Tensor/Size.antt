-- ===== src/Go/Tensor/Size.antt =====
-- `tensorSize` of tensor.go. `int` is 64 bits wide.
use onnxcraft.Common.{
  ℕ, zero, suc, ◌-◌, ◌*◌, ◌/◌, ◌%◌, ◌^◌, ℤ, pos, negsuc, Bool, true, false, List, [], ◌∷◌, ltb,
  ◌==◌, if◌then◌else◌,
}
use onnxcraft.Go.Result.{Result, good, bad, ◌>>=◌}

-- The errors, without their texts.
pub data SizeError : Type 0 where
  negative_dimension : ℤ → SizeError
  unsupported_type : SizeError
  shape_overflow : SizeError
  bytes_overflow : SizeError

-- `math.MaxInt`
abbrev pub max_int : ℕ
max_int = 2 ^ 63 - 1

-- The loop that refuses negative dimensions, with the dimensions as natural numbers.
unfoldable pub natural_dims : List ℤ → Result SizeError (List ℕ)
natural_dims [] = good []
natural_dims (negsuc d ∷ ds) = bad (negative_dimension (negsuc d))
natural_dims (pos d ∷ ds) = do rest ← natural_dims ds; good (d ∷ rest)

-- What the same loop leaves in `empty`.
unfoldable pub has_zero : List ℕ → Bool
has_zero [] = false
has_zero (zero ∷ ds) = true
has_zero (suc d ∷ ds) = has_zero ds

-- The loop that multiplies. `int` wraps.
unfoldable pub grow : List ℕ → ℕ → Result SizeError ℕ
grow [] n = good n
grow (d ∷ ds) n =
    let rest = grow ds (n * d % 2 ^ 64) in if ltb (max_int / n) d then bad shape_overflow else rest

unfoldable pub check_bytes : (size n : ℕ) → Result SizeError ℕ
check_bytes size n = if ltb (max_int / size) n then bad bytes_overflow else good n

unfoldable pub count_elements : (size : ℕ) → List ℕ → Result SizeError ℕ
unfolding has_zero grow check_bytes
count_elements size dims =
    if size == 0
    then bad unsupported_type
    else (if has_zero dims then good 0 else (grow dims 1 >>= check_bytes size))

unfoldable pub tensor_size : List ℤ → (size : ℕ) → Result SizeError ℕ
unfolding natural_dims count_elements
tensor_size shape size = natural_dims shape >>= count_elements size
