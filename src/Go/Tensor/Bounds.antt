-- ===== src/Go/Tensor/Bounds.antt =====
-- `tensorSize` computes the product of the dimensions exactly where it, in bytes, fits an `int`.
use native.Mathlib.Nat.{
  le-div_iff_mul-le, mul-pos, mul_comm, mul_assoc, le-mul_of_pos_right, mod-eq_of_lt, one-mul,
}
use onnxcraft.Common.{
  ℕ, zero, suc, ◌*◌, ◌/◌, ◌%◌, ◌^◌, ◌≤◌, ◌<◌, ◌≡◌, ◌↔◌, refl, sym, ◌∙◌, ap, subst, inl, inr, ℤ, pos,
  negsuc, true, false, List, [], ◌∷◌, map, arith, ltb, ◌==◌, Bool-cases,
}
use onnxcraft.Go.Result.{Result, good, bad, and_then}
use onnxcraft.Go.Tensor.Size.{
  SizeError, max_int, natural_dims, has_zero, grow, check_bytes, count_elements, tensor_size,
}

-- The number of elements that a shape asks for.
abbrev pub product : List ℕ → ℕ
product [] = 1
product (d ∷ ds) = d * product ds

-- What `tensorSize` is to return: the shape is one of natural numbers, `n` is their product, and
-- `n` elements of `size` bytes fit an `int`.
pub record IsSize (shape : List ℤ) (size n : ℕ) : Type 0 where
  pub dims : List ℕ
  pub natural : shape ≡ map pos dims
  pub supported : 1 ≤ size
  pub elements : product dims ≡ n
  pub fits : n * size ≤ max_int

natural_dims-map : (ds : List ℕ) → natural_dims (map pos ds) ≡ good ds
unfolding natural_dims
natural_dims-map [] = refl
natural_dims-map (d ∷ ds) = rw (natural_dims-map ds) refl

good_inj : {A : Type 0} {x y : A} → ◌≡◌ {A = Result SizeError A} (good x) (good y) → x ≡ y
good_inj e = cc

natural_dims_inv :
    (shape : List ℤ) (ds : List ℕ) → natural_dims shape ≡ good ds → shape ≡ map pos ds
unfolding natural_dims
natural_dims_inv [] ds e = ap (map pos) (good_inj e)
natural_dims_inv (negsuc d ∷ shape) ds e = absurd cc
natural_dims_inv (pos d ∷ shape) ds e = go (natural_dims shape) (natural_dims_inv shape) e
  where
    go :
        (r : Result SizeError (List ℕ))
        → ((rest : List ℕ) → r ≡ good rest → shape ≡ map pos rest)
        → and_then r (λ rest. good (d ∷ rest)) ≡ good ds
        → pos d ∷ shape ≡ map pos ds
    go (bad x) rec e = absurd cc
    go (good rest) rec e = ap (◌∷◌ (pos d)) (rec rest refl) ∙ ap (map pos) (good_inj e)

product-zero : (ds : List ℕ) → has_zero ds ≡ true → product ds ≡ 0
unfolding has_zero
product-zero [] e = absurd cc
product-zero (zero ∷ ds) e = omega arith
product-zero (suc d ∷ ds) e = rw (product-zero ds e) (omega arith)

product-positive : (ds : List ℕ) → has_zero ds ≡ false → 1 ≤ product ds
unfolding has_zero
product-positive [] e = omega arith
product-positive (zero ∷ ds) e = absurd cc
product-positive (suc d ∷ ds) e = mul-pos (omega arith) (product-positive ds e)

-- The loop that multiplies, from `n` on.
grow-good :
    (ds : List ℕ) (n : ℕ)
    → 1 ≤ n
    → has_zero ds ≡ false
    → n * product ds ≤ max_int
    → grow ds n ≡ good (n * product ds)
unfolding grow has_zero
grow-good [] n one_le e fits = ap good (omega arith)
grow-good (zero ∷ ds) n one_le e fits = absurd cc
grow-good (suc d ∷ ds) n one_le e fits =
    let here : n * suc d ≤ n * suc d * product ds =
      le-mul_of_pos_right (n * suc d) (product-positive ds e) in
    let whole : n * suc d * product ds ≡ n * (suc d * product ds) =
      mul_assoc n (suc d) (product ds) in
    let le : suc d * n ≤ max_int = omega (arith, mul_comm n (suc d)) in
    let quotient : suc d ≤ max_int / n = (le-div_iff_mul-le one_le).1 le in
    let below : ltb (max_int / n) (suc d) ≡ false = ground arith in
    let exact : n * suc d % 2 ^ 64 ≡ n * suc d = mod-eq_of_lt (omega arith) in
    rw (below, exact)
      (grow-good ds (n * suc d) (mul-pos one_le (omega arith)) e (omega arith) ∙ ap good whole)

grow-bad :
    (ds : List ℕ) (n : ℕ)
    → 1 ≤ n
    → n ≤ max_int
    → has_zero ds ≡ false
    → max_int < n * product ds
    → grow ds n ≡ bad SizeError.shape_overflow
unfolding grow has_zero
grow-bad [] n one_le small e over = absurd (omega arith)
grow-bad (zero ∷ ds) n one_le small e over = absurd cc
grow-bad (suc d ∷ ds) n one_le small e over = elim (Bool-cases (ltb (max_int / n) (suc d))) [
  | inl big ↦ rw big refl
  | inr fits ↦
      let le : suc d * n ≤ max_int = (le-div_iff_mul-le one_le).0 (ground arith) in
      let swap : n * suc d ≤ max_int = omega (arith, mul_comm n (suc d)) in
      let exact : n * suc d % 2 ^ 64 ≡ n * suc d = mod-eq_of_lt (omega arith) in
      let whole : n * suc d * product ds ≡ n * (suc d * product ds) =
        mul_assoc n (suc d) (product ds) in
      rw (fits, exact) (grow-bad ds (n * suc d) (mul-pos one_le (omega arith)) swap e (omega arith))
]

good_not_bad :
    {A : Type 0} {x : A} {e : SizeError} → ¬ (◌≡◌ {A = Result SizeError A} (bad e) (good x))
good_not_bad e = cc

check_bytes-fits : (size n : ℕ) → 1 ≤ size → n * size ≤ max_int → check_bytes size n ≡ good n
unfolding check_bytes
check_bytes-fits size n supported fits =
    let quotient : n ≤ max_int / size = (le-div_iff_mul-le supported).1 fits in
    let below : ltb (max_int / size) n ≡ false = ground arith in rw below refl

check_bytes-good :
    (size n m : ℕ) → 1 ≤ size → check_bytes size n ≡ good m → (n ≡ m) × (n * size ≤ max_int)
unfolding check_bytes
check_bytes-good size n m supported h = elim (Bool-cases (ltb (max_int / size) n)) [
  | inl big ↦ absurd (good_not_bad (rw big at h))
  | inr fits ↦ (good_inj (rw fits at h), (le-div_iff_mul-le supported).0 (ground arith))
]

-- The elements of a shape without zeros.
count_positive :
    (size : ℕ) (ds : List ℕ) (m : ℕ)
    → 1 ≤ size
    → has_zero ds ≡ false
    → (and_then (grow ds 1) (check_bytes size) ≡ good m)
      ↔ ((product ds ≡ m) × (product ds * size ≤ max_int))
count_positive size ds m supported e = (there, back)
  where
    there :
        and_then (grow ds 1) (check_bytes size) ≡ good m
        → (product ds ≡ m) × (product ds * size ≤ max_int)
    there h = elim (Bool-cases (ltb max_int (1 * product ds))) [
      | inl over ↦
          absurd
            (good_not_bad (rw (grow-bad ds 1 (omega arith) (omega arith) e (ground arith)) at h))
      | inr fits ↦
          let h' : check_bytes size (1 * product ds) ≡ good m =
            rw (grow-good ds 1 (omega arith) e (ground arith)) at h in
          let (same, bytes) = check_bytes-good size (1 * product ds) m supported h' in
          (omega arith, subst (λ k. k * size ≤ max_int) (one-mul (product ds)) bytes)
    ]

    back :
        (product ds ≡ m) × (product ds * size ≤ max_int)
        → and_then (grow ds 1) (check_bytes size) ≡ good m
    back (same, fits) =
        let within : product ds ≤ product ds * size = le-mul_of_pos_right (product ds) supported in
        let one_time : 1 * product ds ≡ product ds = omega arith in
        rw
          (
            grow-good ds 1 (omega arith) e (omega arith),
            one_time,
            check_bytes-fits size (product ds) supported fits,
          )
          (ap good same)

supported : (k : ℕ) → (suc k == 0) ≡ false
supported k = ground arith

-- With dimensions that are not negative.
count_elements_lem :
    (size : ℕ) (ds : List ℕ) (m : ℕ)
    → (count_elements size ds ≡ good m) ↔ ((1 ≤ size) × (product ds ≡ m) × (m * size ≤ max_int))
unfolding count_elements
count_elements_lem zero ds m = (λ h. absurd (good_not_bad h), λ h. absurd (omega arith))
count_elements_lem (suc k) ds m = elim (Bool-cases (has_zero ds)) [
  | inl e ↦
      rw (supported k, e)
        (
          (λ h.
              let none_left : 0 ≡ m = good_inj h in
              (
                omega arith,
                product-zero ds e ∙ none_left,
                subst (λ x. x * suc k ≤ max_int) none_left (omega arith),
              )),
          (λ h. ap good (sym (product-zero ds e) ∙ h.1)),
        )
  | inr e ↦
      let both = count_positive (suc k) ds m (omega arith) e in
      rw (supported k, e)
        (
          (λ h.
              let (same, fits) = both.0 h in
              (omega arith, same, subst (λ x. x * suc k ≤ max_int) same fits)),
          (λ h. both.1 (h.1, subst (λ x. x * suc k ≤ max_int) (sym h.1) h.2)),
        )
]

-- `tensorSize` succeeds with `n` exactly where no dimension is negative, the element type has a
-- size, `n` is the product of the dimensions, and `n` elements take at most `math.MaxInt` bytes; no
-- partial product overflows on the way.
pub tensor_size_lem :
    (shape : List ℤ) (size n : ℕ) → (tensor_size shape size ≡ good n) ↔ IsSize shape size n
unfolding tensor_size
tensor_size_lem shape size n = (there (natural_dims shape) (natural_dims_inv shape), back)
  where
    there :
        (r : Result SizeError (List ℕ))
        → ((ds : List ℕ) → r ≡ good ds → shape ≡ map pos ds)
        → and_then r (count_elements size) ≡ good n
        → IsSize shape size n
    there (bad e) inv h = absurd (good_not_bad h)
    there (good ds) inv h =
        let (supported, same, fits) = (count_elements_lem size ds n).0 h in
        record {
          dims = ds;
          natural = inv ds refl;
          supported = supported;
          elements = same;
          fits = fits;
        }

    back : IsSize shape size n → and_then (natural_dims shape) (count_elements size) ≡ good n
    back s =
        rw (s.natural, natural_dims-map s.dims)
          ((count_elements_lem size s.dims n).1 (s.supported, s.elements, s.fits))
