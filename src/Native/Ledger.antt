-- ===== src/Native/Ledger.antt =====
-- The ledger of native allocations, after the log that testdata/failing_runtime.c keeps: which
-- handles and heap blocks are live, each with its kind and its address.
use mathlib.Core.Logic.{ite, if_pos, if_neg}
use onnxcraft.Common.{ℕ, ◌+◌, ◌≤◌, ◌≡◌, refl, List, [], ◌∷◌, ◌++◌, arith, ℕ_discrete}

pub data Kind : Type 0 where
  library_handle : Kind
  env_handle : Kind
  memory_info_handle : Kind
  status_handle : Kind
  session_options_handle : Kind
  cuda_options_handle : Kind
  tensorrt_options_handle : Kind
  session_handle : Kind
  type_info_handle : Kind
  value_handle : Kind
  run_options_handle : Kind
  name_block : Kind
  heap_block : Kind

pub data Resource : Type 0 where
  resource : Kind → ℕ → Resource

unfoldable pub Resource-discrete : Discrete Resource
unfolding ℕ_discrete
Resource-discrete = hlevel ℕ_discrete

-- 1 where the two are one resource, else 0.
unfoldable pub one : Resource → Resource → ℕ
one q r = ite (Resource-discrete q r) 1 0

-- How often a resource is listed as live.
abbrev pub count : Resource → List Resource → ℕ
count q [] = 0
count q (r ∷ rs) = one q r + count q rs

abbrev pub erase : Resource → List Resource → List Resource
erase q [] = []
erase q (r ∷ rs) = ite (Resource-discrete q r) rs (r ∷ erase q rs)

pub one_self : (r : Resource) → one r r ≡ 1
unfolding one
one_self r = rw (if_pos _ refl)

one-ne : (q r : Resource) → ¬ (q ≡ r) → one q r ≡ 0
unfolding one
one-ne q r ne = rw (if_neg _ ne)

pub count-append :
    (q : Resource) (xs ys : List Resource) → count q (xs ++ ys) ≡ count q xs + count q ys
count-append q [] ys = omega arith
count-append q (x ∷ xs) ys = omega (arith, count-append q xs ys)

pub count-append_ge :
    (q : Resource) (xs ys : List Resource) {n : ℕ} → n ≤ count q ys → n ≤ count q (xs ++ ys)
count-append_ge q xs ys h = omega (arith, count-append q xs ys)

-- Erasing a live resource lowers its own count by one, and no other.
pub count-erase :
    (q r : Resource) (rs : List Resource)
    → 1 ≤ count r rs
    → count q (erase r rs) + one q r ≡ count q rs
count-erase q r [] h = absurd (omega arith)
count-erase q r (x ∷ rs) h = elim (Resource-discrete r x) [
  | yes e ↦ rw (if_pos _ e, e) (omega arith)
  | no ne ↦ rw (if_neg _ ne) (omega (arith, one-ne r x ne, count-erase q r rs))
]
