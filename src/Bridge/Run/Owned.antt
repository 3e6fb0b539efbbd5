-- ===== src/Bridge/Run/Owned.antt =====
-- What the array `values` and the array of outputs own.
use onnxcraft.Common.{
  ℕ, zero, suc, ◌+◌, ◌≤◌, ◌≢◌, ◌≡◌, refl, ap, List, [], ◌∷◌, ◌++◌, Option, none, some, arith,
  get_elem?, set, replicate,
}
use onnxcraft.Native.Ledger.{Kind, Resource, resource, count, one_self, count-append}
use onnxcraft.Native.Rules.{Live, opt_owned}
use onnxcraft.Ort.Calls.{values_owned}
use onnxcraft.Bridge.Types.{OcTensor}

abbrev pub value_owned : Option ℕ → List Resource
value_owned = opt_owned Kind.value_handle

-- The values that the outputs hold.
abbrev pub outputs_owned : List OcTensor → List Resource
outputs_owned [] = []
outputs_owned (t ∷ ts) = value_owned t.value ++ outputs_owned ts

pub values_owned-cons :
    (q : Resource) (v : Option ℕ) (vs : List (Option ℕ))
    → count q (values_owned (v ∷ vs)) ≡ count q (value_owned v) + count q (values_owned vs)
values_owned-cons q none vs = omega arith
values_owned-cons q (some v) vs = omega arith

pub values_owned-append :
    (q : Resource) (vs us : List (Option ℕ))
    → count q (values_owned (vs ++ us)) ≡ count q (values_owned vs) + count q (values_owned us)
values_owned-append q [] us = omega arith
values_owned-append q (v ∷ vs) us =
    omega (
      arith,
      values_owned-append q vs us,
      values_owned-cons q v vs,
      values_owned-cons q v (vs ++ us),
    )

pub values_owned-replicate : (n : ℕ) → values_owned (replicate n none) ≡ []
values_owned-replicate zero = refl
values_owned-replicate (suc n) = values_owned-replicate n

-- Writing `y` over `x`.
pub values_owned-set :
    (q : Resource) (vs : List (Option ℕ)) (i : ℕ) (x y : Option ℕ)
    → get_elem? vs i ≡ some x
    → count q (values_owned (set vs i y)) + count q (value_owned x)
      ≡ count q (values_owned vs) + count q (value_owned y)
values_owned-set q [] i x y e = absurd cc
values_owned-set q (v ∷ vs) zero x y e =
    let same : v ≡ x = cc in
    omega (
      arith,
      ap (λ z. count q (value_owned z)) same,
      values_owned-cons q v vs,
      values_owned-cons q y vs,
    )
values_owned-set q (v ∷ vs) (suc i) x y e = omega (
  arith,
  values_owned-set q vs i x y e,
  values_owned-cons q v vs,
  values_owned-cons q v (set vs i y),
)

pub outputs_owned-set :
    (q : Resource) (ts : List OcTensor) (i : ℕ) (t u : OcTensor)
    → get_elem? ts i ≡ some t
    → count q (outputs_owned (set ts i u)) + count q (value_owned t.value)
      ≡ count q (outputs_owned ts) + count q (value_owned u.value)
outputs_owned-set q [] i t u e = absurd cc
outputs_owned-set q (t₁ ∷ ts) zero t u e =
    let same : t₁ ≡ t = cc in
    omega (
      arith,
      ap (λ z. count q (value_owned z.value)) same,
      count-append q (value_owned t₁.value) (outputs_owned ts),
      count-append q (value_owned u.value) (outputs_owned ts),
    )
outputs_owned-set q (t₁ ∷ ts) (suc i) t u e = omega (
  arith,
  outputs_owned-set q ts i t u e,
  count-append q (value_owned t₁.value) (outputs_owned ts),
  count-append q (value_owned t₁.value) (outputs_owned (set ts i u)),
)

-- A value that an output holds is live.
pub outputs_owned-live :
    (ts : List OcTensor) (i : ℕ) (t : OcTensor) (v : ℕ)
    → get_elem? ts i ≡ some t
    → t.value ≡ some v
    → 1 ≤ count (resource Kind.value_handle v) (outputs_owned ts)
outputs_owned-live ts i t v e h =
    let q = resource Kind.value_handle v in
    let blank : OcTensor = record t { value = none } in
    omega
      (arith, outputs_owned-set q ts i t blank e, ap (λ z. count q (value_owned z)) h, one_self q)

-- Resources that are among what is owned are live.
pub Live-among :
    (base own rs : List Resource) → ((q : Resource) → count q rs ≤ count q own) → Live base own rs
Live-among base own [] h = tt
Live-among base own (r ∷ rs) h =
    (omega (arith, h r, one_self r), Live-among base own rs λ q. omega (arith, h q))

pub get_elem?-set :
    {A : Type 0} (xs : List A) (i : ℕ) (x y : A)
    → get_elem? xs i ≡ some x
    → get_elem? (set xs i y) i ≡ some y
get_elem?-set [] i x y e = absurd cc
get_elem?-set (z ∷ xs) zero x y e = refl
get_elem?-set (z ∷ xs) (suc i) x y e = get_elem?-set xs i x y e

pub get_elem?-set_other :
    {A : Type 0} (xs : List A) (i j : ℕ) (y : A) → i ≢ j → get_elem? (set xs i y) j ≡ get_elem? xs j
get_elem?-set_other [] i j y d = refl
get_elem?-set_other (z ∷ xs) zero zero y d = absurd (d refl)
get_elem?-set_other (z ∷ xs) zero (suc j) y d = refl
get_elem?-set_other (z ∷ xs) (suc i) zero y d = refl
get_elem?-set_other (z ∷ xs) (suc i) (suc j) y d = get_elem?-set_other xs i j y λ e. d (ap suc e)
