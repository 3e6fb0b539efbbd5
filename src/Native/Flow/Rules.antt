-- ===== src/Native/Flow/Rules.antt =====
-- The rules of function bodies with a `fail` label, for a condition on where the body ends.
use onnxcraft.Common.{ℕ, ◌≡◌, refl, Bool, true, false, List, ◌∷◌, ◌++◌}
use onnxcraft.Native.Ledger.{Kind, Resource, resource}
use onnxcraft.Native.Machine.{World, M, Run, Reply, and_then}
use onnxcraft.Native.Flow.Defs.{
  Exit, next, goto_fail, Flow, continue_with, arrived, answered, jumped, fail_if,
}
use onnxcraft.Native.Rules.{Ensures, ensures, Holds, Answered, succeeded, failed}
use onnxcraft.Native.Calls.{Answers, Replied}

-- How a body ends: it goes on with `Good`, or at the label its locals are `Inv`, they own what they
-- say, and the status is one more live resource.
pub data Ends {S L A : Type 0} (base : List Resource) (owned : L → List Resource) (Inv : L → Type 0)
    (Good : A → L → World S → Type 0) : Exit L A → World S → Type 0 where
  goes_on : {a : A} {l : L} {w : World S} → Good a l w → Ends base owned Inv Good (next a l) w
  fails :
      {st : ℕ} {l : L} {w : World S}
      → Inv l
      → Holds base (resource Kind.status_handle st ∷ owned l) w
      → Ends base owned Inv Good (goto_fail st l) w

module _ {S L : Type 0} {base : List Resource} {owned : L → List Resource} {Inv : L → Type 0} where
  pub then_flow :
      {A B : Type 0} {P : A → L → World S → Type 0} {Q : B → L → World S → Type 0}
      {r : Run S (Exit L A)} {k : A → Flow S L B}
      → Ensures (Ends base owned Inv P) r
      → ((a : A) (l : L) (w : World S) → P a l w → Ensures (Ends base owned Inv Q) (k a l w))
      → Ensures (Ends base owned Inv Q) (and_then r (continue_with k))
  unfolding continue_with
  then_flow (ensures (goes_on p)) rest = rest _ _ _ p
  then_flow (ensures (fails i h)) rest = ensures (fails i h)

  pub Ends-mono :
      {A : Type 0} {P Q : A → L → World S → Type 0} {r : Run S (Exit L A)}
      → Ensures (Ends base owned Inv P) r
      → ((a : A) (l : L) (w : World S) → P a l w → Q a l w)
      → Ensures (Ends base owned Inv Q) r
  Ends-mono (ensures (goes_on p)) weaken = ensures (goes_on (weaken _ _ _ p))
  Ends-mono (ensures (fails i h)) weaken = ensures (fails i h)

  -- `CHECK(call); rest`
  pub then_check :
      {A B : Type 0} {Q : B → L → World S → Type 0} {new : A → List Resource} {r : Run S (Reply A)}
      (l : L) (k : A → Flow S L B)
      → Inv l
      → Ensures (Answered base new (owned l)) r
      → ((a : A) (w : World S)
          → Holds base (new a ++ owned l) w
          → Ensures (Ends base owned Inv Q) (k a l w))
      → Ensures (Ends base owned Inv Q) (and_then (and_then r (answered l)) (continue_with k))
  unfolding continue_with answered
  then_check l k i (ensures (succeeded h)) rest = rest _ _ h
  then_check l k i (ensures (failed h)) rest = ensures (fails i h)

  -- The same, with what the library answered.
  pub then_reply :
      {A B : Type 0} {Q : B → L → World S → Type 0} {new : A → List Resource} {r : Run S (Reply A)}
      (f : S → Reply A × S) (l : L) (k : A → Flow S L B)
      → Inv l
      → Ensures (Replied base new (owned l) f) r
      → ((a : A) (w : World S)
          → Answers f a
          → Holds base (new a ++ owned l) w
          → Ensures (Ends base owned Inv Q) (k a l w))
      → Ensures (Ends base owned Inv Q) (and_then (and_then r (answered l)) (continue_with k))
  unfolding continue_with answered
  then_reply f l k i (ensures (by, succeeded h)) rest = rest _ _ by h
  then_reply f l k i (ensures (by, failed h)) rest = ensures (fails i h)

  -- `call; rest`
  pub then_plain :
      {A B : Type 0} {P : A → World S → Type 0} {Q : B → L → World S → Type 0} {r : Run S A} (l : L)
      (k : A → Flow S L B)
      → Ensures P r
      → ((a : A) (w : World S) → P a w → Ensures (Ends base owned Inv Q) (k a l w))
      → Ensures (Ends base owned Inv Q) (and_then (and_then r (arrived l)) (continue_with k))
  unfolding continue_with arrived
  then_plain l k (ensures p) rest = rest _ _ p

  -- `status = CreateStatus(...); goto fail;`
  pub fail_rule :
      {A : Type 0} {Q : A → L → World S → Type 0} {r : Run S ℕ} (l : L)
      → Inv l
      → Ensures (λ st w. Holds base (resource Kind.status_handle st ∷ owned l) w) r
      → Ensures (Ends base owned Inv Q) (and_then r (jumped l))
  unfolding jumped
  fail_rule l i (ensures h) = ensures (fails i h)

  pub then_guard :
      {B : Type 0} {Q : B → L → World S → Type 0} (b : Bool) (m : M S ℕ) (l : L) (w : World S)
      (k : Unit {0} → Flow S L B)
      → Inv l
      → Ensures (λ st w'. Holds base (resource Kind.status_handle st ∷ owned l) w') (m w)
      → (b ≡ false → Ensures (Ends base owned Inv Q) (k tt l w))
      → Ensures (Ends base owned Inv Q) (and_then (fail_if b m l w) (continue_with k))
  unfolding fail_if continue_with
  then_guard true m l w k i stop go =
      then_flow {P = λ _ _ _. ⊥} (fail_rule l i stop) λ _ _ _ never. absurd never
  then_guard false m l w k i stop go = go refl
