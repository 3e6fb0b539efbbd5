-- ===== src/Go/Result.antt =====
-- A Go function's result and its `error`, of which one is there.
pub data Result {ℓ} (E A : Type ℓ) : Type ℓ where
  good : A → Result E A
  bad : E → Result E A

abbrev pub and_then {ℓ} : {E A B : Type ℓ} → Result E A → (A → Result E B) → Result E B
and_then (good a) k = k a
and_then (bad e) k = bad e

infixl 5 ◌>>=◌
abbrev pub ◌>>=◌ {ℓ} : {E A B : Type ℓ} → Result E A → (A → Result E B) → Result E B
m >>= k = and_then m k
