-- ===== src/Bridge/Run/Arrays.antt =====
-- The arrays that `run` takes apart, fills and reads.
use onnxcraft.Common.{
  ℕ, zero, suc, ◌+◌, ◌<◌, ◌≤◌, ◌≡◌, refl, ap, leb, true, length-replicate, List, [], ◌∷◌, ◌++◌,
  Option, none, some, arith, length, get_elem?, take, drop, replicate,
}
use onnxcraft.Native.Ledger.{Resource, count}
use onnxcraft.Ort.Calls.{values_owned}
use onnxcraft.Bridge.Types.{OcTensor}
use onnxcraft.Bridge.Run.Defs.{entries}
use onnxcraft.Bridge.Run.Owned.{outputs_owned, values_owned-append}
use onnxcraft.Bridge.Run.Answer.{AllSome}
use onnxcraft.Bridge.Run.Collect.{Fresh, Ready}

pub append-take-drop : {A : Type 0} (k : ℕ) (xs : List A) → take k xs ++ drop k xs ≡ xs
append-take-drop zero xs = refl
append-take-drop (suc k) [] = refl
append-take-drop (suc k) (x ∷ xs) = ap (◌∷◌ x) (append-take-drop k xs)

pub values_owned-halves :
    (q : Resource) (k : ℕ) (vs : List (Option ℕ))
    → count q (values_owned vs)
      ≡ count q (values_owned (take k vs)) + count q (values_owned (drop k vs))
values_owned-halves q k vs = omega (
  arith,
  values_owned-append q (take k vs) (drop k vs),
  ap (λ us. count q (values_owned us)) (append-take-drop k vs),
)

pub AllSome-get_elem? :
    (vs : List (Option ℕ)) (j : ℕ)
    → AllSome vs
    → j < length vs
    → (v : ℕ) × (get_elem? vs j ≡ some (some v))
AllSome-get_elem? [] j h small = absurd (omega arith)
AllSome-get_elem? (none ∷ vs) j h small = absurd h
AllSome-get_elem? (some v ∷ vs) zero h small = (v, refl)
AllSome-get_elem? (some v ∷ vs) (suc j) h small = AllSome-get_elem? vs j h (omega arith)

pub Ready-append :
    (xs us : List (Option ℕ)) → AllSome us → Ready (length xs) (length xs + length us) (xs ++ us)
Ready-append [] us h j lo hi = AllSome-get_elem? us j h (omega arith)
Ready-append (x ∷ xs) us h zero lo hi = absurd (omega arith)
Ready-append (x ∷ xs) us h (suc j) lo hi = Ready-append xs us h j (omega arith) (omega arith)

pub replicate-clear : (n j : ℕ) → j < n → get_elem? {A = Option ℕ} (replicate n none) j ≡ some none
replicate-clear zero j h = absurd (omega arith)
replicate-clear (suc n) zero h = refl
replicate-clear (suc n) (suc j) h = replicate-clear n j (omega arith)

take-replicate : {A : Type 0} (n m : ℕ) (a : A) → n ≤ m → take n (replicate m a) ≡ replicate n a
take-replicate zero m a h = refl
take-replicate (suc n) zero a h = absurd (omega arith)
take-replicate (suc n) (suc m) a h = ap (◌∷◌ a) (take-replicate n m a (omega arith))

-- An array of at least `n` entries.
pub entries-replicate :
    {A : Type 0} (n m : ℕ) (a : A) → n ≤ m → entries n (replicate m a) ≡ some (replicate n a)
entries-replicate n m a h =
    let fits : leb n (length (replicate m a)) ≡ true = ground (arith, length-replicate m a) in
    rw fits (ap some (take-replicate n m a h))

pub outputs_owned-Fresh : (ts : List OcTensor) → Fresh 0 ts → outputs_owned ts ≡ []
outputs_owned-Fresh [] f = refl
outputs_owned-Fresh (t ∷ ts) f =
    rw (f 0 t (omega arith) refl) (outputs_owned-Fresh ts λ j x lo e. f (suc j) x (omega arith) e)
