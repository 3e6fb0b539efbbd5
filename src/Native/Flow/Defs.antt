-- ===== src/Native/Flow/Defs.antt =====
-- The monad of function bodies with a `fail` label.
use onnxcraft.Common.{ℕ, Bool, true, false}
use onnxcraft.Native.Machine.{World, Run, done, M, Reply, success, failure, and_then}

-- Where a body is after a step, with its local variables.
pub data Exit (L A : Type 0) : Type 0 where
  next : A → L → Exit L A
  goto_fail : ℕ → L → Exit L A

abbrev pub Flow : Type 0 → Type 0 → Type 0 → Type 0
Flow S L A = L → World S → Run S (Exit L A)

module _ {S L : Type 0} where
  abbrev pub go_on : {A : Type 0} → A → Flow S L A
  go_on a l w = done (next a l) w

  unfoldable pub continue_with :
      {A B : Type 0} → (A → Flow S L B) → Exit L A → World S → Run S (Exit L B)
  continue_with k (next a l) w = k a l w
  continue_with k (goto_fail st l) w = done (goto_fail st l) w

  infixl 5 ◌>>=◌ ◌>>◌
  abbrev pub ◌>>=◌ : {A B : Type 0} → Flow S L A → (A → Flow S L B) → Flow S L B
  ◌>>=◌ m k l w = and_then (m l w) (continue_with k)

  abbrev pub ◌>>◌ : {A B : Type 0} → Flow S L A → Flow S L B → Flow S L B
  m >> n = m >>= λ _. n

  -- A call that cannot jump.
  unfoldable pub arrived : {A : Type 0} → L → A → World S → Run S (Exit L A)
  arrived l a w = done (next a l) w

  abbrev pub plain : {A : Type 0} → M S A → Flow S L A
  plain m l w = and_then (m w) (arrived l)

  unfoldable pub answered : {A : Type 0} → L → Reply A → World S → Run S (Exit L A)
  answered l (success a) w = done (next a l) w
  answered l (failure st) w = done (goto_fail st l) w

  -- `CHECK(call)`
  abbrev pub check : {A : Type 0} → M S (Reply A) → Flow S L A
  check m l w = and_then (m w) (answered l)

  unfoldable pub jumped : {A : Type 0} → L → ℕ → World S → Run S (Exit L A)
  jumped l st w = done (goto_fail st l) w

  -- `status = call; goto fail;`
  abbrev pub fail_with : {A : Type 0} → M S ℕ → Flow S L A
  fail_with m l w = and_then (m w) (jumped l)

  abbrev pub locals : Flow S L L
  locals l w = done (next l l) w

  abbrev pub assign : (L → L) → Flow S L (Unit {0})
  assign f l w = done (next tt (f l)) w

  -- `if (test) { status = call; goto fail; }`
  unfoldable pub fail_if : Bool → M S ℕ → Flow S L (Unit {0})
  unfolding jumped
  fail_if true m = fail_with m
  fail_if false m = go_on tt
