-- ===== src/Go/Session/Ran/Layout.antt =====
-- The arrays of descriptors that `run` lays out in the buffers of its pool.
use onnxcraft.Common.{
  ℕ, zero, suc, ◌+◌, ◌≤◌, ◌≡◌, refl, sym, subst, ap, ◌∙◌, ◌⊎◌, inl, inr, Bool-cases, List, [], ◌∷◌,
  ◌++◌, arith, ltb, ◌==◌, length, length-append, length-take, length-drop, length-replicate, take,
  drop, replicate,
}
use onnxcraft.Bridge.Types.{OcTensor}
use onnxcraft.Bridge.Run.{zero_tensor}
use onnxcraft.Bridge.Run.Collect.{Fresh}
use onnxcraft.Go.Result.{good, bad}
use onnxcraft.Go.Tensor.{data_type_size}
use onnxcraft.Go.Runtime.{GoError}
use onnxcraft.Go.Session.Operand.{Operand}
use onnxcraft.Go.Session.Describe.{describe_operands, fitted, laid_out, cleared}

-- Every descriptor of a buffer is zero.
abbrev pub AllZero : List OcTensor → Type 0
AllZero [] = Unit
AllZero (t ∷ ts) = (t ≡ zero_tensor) × AllZero ts

AllZero-replicate : (n : ℕ) → AllZero (replicate n zero_tensor)
AllZero-replicate zero = tt
AllZero-replicate (suc n) = (refl, AllZero-replicate n)

AllZero-append : (xs ys : List OcTensor) → AllZero xs → AllZero ys → AllZero (xs ++ ys)
AllZero-append [] ys a b = b
AllZero-append (x ∷ xs) ys a b = (a.0, AllZero-append xs ys a.1 b)

AllZero-drop : (k : ℕ) (xs : List OcTensor) → AllZero xs → AllZero (drop k xs)
AllZero-drop zero xs a = a
AllZero-drop (suc k) [] a = tt
AllZero-drop (suc k) (x ∷ xs) a = AllZero-drop k xs a.1

AllZero-take : (k : ℕ) (xs : List OcTensor) → AllZero xs → AllZero (take k xs)
AllZero-take zero xs a = tt
AllZero-take (suc k) [] a = tt
AllZero-take (suc k) (x ∷ xs) a = (a.0, AllZero-take k xs a.1)

AllZero-Fresh : (xs : List OcTensor) → AllZero xs → Fresh 0 xs
AllZero-Fresh [] a j t lo e = absurd cc
AllZero-Fresh (x ∷ xs) a zero t lo e =
    let same : t ≡ zero_tensor = (let h = a.0 in cc) in ap (λ u. u.value) same
AllZero-Fresh (x ∷ xs) a (suc j) t lo e = AllZero-Fresh xs a.1 j t (omega arith) e

AllZero-fitted : (n : ℕ) (buffer : List OcTensor) → AllZero buffer → AllZero (fitted n buffer)
AllZero-fitted n buffer a = elim (Bool-cases (ltb (length buffer) n)) [
  | inl e ↦ rw e (AllZero-replicate n)
  | inr e ↦ rw e a
]

fitted-length : (n : ℕ) (buffer : List OcTensor) → n ≤ length (fitted n buffer)
fitted-length n buffer = elim (Bool-cases (ltb (length buffer) n)) [
  | inl e ↦ rw e (omega (arith, length-replicate n zero_tensor))
  | inr e ↦ rw e (ground arith)
]

-- The buffer goes back to the pool as clear as it came.
pub cleared-AllZero : (n : ℕ) (buffer : List OcTensor) → AllZero buffer → AllZero (cleared n buffer)
cleared-AllZero n buffer a =
    AllZero-append (replicate n zero_tensor) (drop n (fitted n buffer)) (AllZero-replicate n)
      (AllZero-drop n (fitted n buffer) (AllZero-fitted n buffer a))

pub length-laid_out :
    (n : ℕ) (buffer written : List OcTensor)
    → length written ≤ n
    → length (laid_out n buffer written) ≡ n
length-laid_out n buffer written le =
    let whole = take n (fitted n buffer) in
    let full = length-take n (fitted n buffer) (fitted-length n buffer) in
    omega (
      arith,
      full,
      length-drop (length written) whole (omega (arith, full)),
      length-append written (drop (length written) whole),
    )

drop-append : (xs ys : List OcTensor) → drop (length xs) (xs ++ ys) ≡ ys
drop-append [] ys = refl
drop-append (x ∷ xs) ys = drop-append xs ys

-- Behind the descriptors that are written, the others hold no value.
pub laid_out-Fresh :
    (n k : ℕ) (buffer written : List OcTensor)
    → AllZero buffer
    → length written ≡ k
    → Fresh 0 (drop k (laid_out n buffer written))
laid_out-Fresh n k buffer written a e =
    let rest = drop (length written) (take n (fitted n buffer)) in
    let same : drop k (laid_out n buffer written) ≡ rest =
      ap (λ m. drop m (written ++ rest)) (sym e) ∙ drop-append written rest in
    subst (Fresh 0) (sym same) (
      AllZero-Fresh rest (
        AllZero-drop (length written) (take n (fitted n buffer))
          (AllZero-take n (fitted n buffer) (AllZero-fitted n buffer a))))

-- How the loop over the tensors ends.
pub describe_operands-cases :
    (i : ℕ) (ts : List Operand)
    → ((e : GoError) × (describe_operands i ts ≡ bad e))
      ⊎ ((ds : List OcTensor) × (describe_operands i ts ≡ good ds) × (length ds ≡ length ts))
unfolding describe_operands
describe_operands-cases i [] = inr ([], refl, refl)
describe_operands-cases i (t ∷ ts) = elim (Bool-cases (data_type_size t.dtype == 0)) [
  | inl e ↦ rw e (inl (_, refl))
  | inr e ↦ rw e (elim (describe_operands-cases (i + 1) ts) [
    | inl (x, f) ↦ rw f (inl (_, refl))
    | inr (ds, f, l) ↦ rw f (inr (_, refl, omega (arith, l)))
  ])
]
