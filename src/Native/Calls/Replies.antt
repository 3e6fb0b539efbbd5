-- ===== src/Native/Calls/Replies.antt =====
-- The rules of calls with what the library answered: the reply that the code goes on with is the one
-- that the library gave in some state.
use onnxcraft.Common.{ℕ, ◌≡◌, refl, sym, List, arith}
use onnxcraft.Native.Ledger.{Kind, Resource}
use onnxcraft.Native.Machine.{World, Reply, success, failure, call, status_of, handle_of, acquire}
use onnxcraft.Native.Calls.Defs.{asking, creating}
use onnxcraft.Native.Calls.Rules.{uses_all-Holds}
use onnxcraft.Native.Rules.{
  Ensures, ensures, bind, mono, Holds, Live, Answered, succeeded, failed, new_handle, nothing_new,
}

-- In some state the call succeeds with this answer.
abbrev pub Answers : {S A : Type 0} → (S → Reply A × S) → A → Type 0
Answers {S} f a = (s : S) × ((f s).0 ≡ success a)

abbrev pub Replied :
    {S A : Type 0}
    → List Resource
    → (new : A → List Resource) → (own : List Resource) → (S → Reply A × S)
    → Reply A
    → World S
    → Type 0
Replied {S} base new own f r w = ((s : S) × ((f s).0 ≡ r)) × Answered base new own r w

module _ {S : Type 0} {base : List Resource} where
  status_of-same :
      {A : Type 0} (r : Reply A) {own : List Resource} {w : World S}
      → Holds base own w
      → Ensures (λ r' w'. (r' ≡ r) × Answered base nothing_new own r' w') (status_of r w)
  unfolding status_of acquire
  status_of-same (success a) h = ensures (refl, succeeded h)
  status_of-same (failure st) h =
      ensures (refl, failed (record { live = λ q. omega (arith, h.live q) }))

  handle_of-same :
      (k : Kind) (r : Reply ℕ) {own : List Resource} {w : World S}
      → Holds base own w
      → Ensures (λ r' w'. (r' ≡ r) × Answered base (new_handle k) own r' w') (handle_of k r w)
  unfolding handle_of acquire
  handle_of-same k (success p) h =
      ensures (refl, succeeded (record { live = λ q. omega (arith, h.live q) }))
  handle_of-same k (failure st) h =
      ensures (refl, failed (record { live = λ q. omega (arith, h.live q) }))

  module _ (args : List Resource) where
    pub asking-Replied :
        {A : Type 0} (f : S → Reply A × S) {own : List Resource} {w : World S}
        → Holds base own w
        → Live base own args
        → Ensures (Replied base nothing_new own f) (asking args f w)
    unfolding asking call
    asking-Replied f h alive = bind (uses_all-Holds args h alive) λ _ w₁ h₁.
        mono (status_of-same (f w₁.libs).0 (record { live = h₁.live }))
          λ r w₂ q. ((w₁.libs, sym q.0), q.1)

    pub creating-Replied :
        (k : Kind) (f : S → Reply ℕ × S) {own : List Resource} {w : World S}
        → Holds base own w
        → Live base own args
        → Ensures (Replied base (new_handle k) own f) (creating k args f w)
    unfolding creating call
    creating-Replied k f h alive = bind (uses_all-Holds args h alive) λ _ w₁ h₁.
        mono (handle_of-same k (f w₁.libs).0 (record { live = h₁.live }))
          λ r w₂ q. ((w₁.libs, sym q.0), q.1)
