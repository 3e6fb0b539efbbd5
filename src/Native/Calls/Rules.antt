-- ===== src/Native/Calls/Rules.antt =====
-- What each kind of call does to the ledger.
use onnxcraft.Common.{ℕ, ◌≡◌, refl, List, [], ◌∷◌, ◌++◌, Option}
use onnxcraft.Native.Ledger.{Kind, Resource, resource}
use onnxcraft.Native.Machine.{World, Reply, call}
use onnxcraft.Native.Calls.Defs.{
  uses_all, asking, creating, reading, minting, allocating, releasing,
}
use onnxcraft.Native.Rules.{
  Ensures, ensures, bind, mono, Holds, Same, Live, Answered, new_handle, nothing_new, opt_owned,
  acquire-Holds, release-Holds, uses-Holds, call-Holds, status_of-Answered, handle_of-Answered,
  block_of-Holds,
}

module _ {S : Type 0} {base : List Resource} where
  pub uses_all-Holds :
      (rs : List Resource) {own : List Resource} {w : World S}
      → Holds base own w
      → Live base own rs
      → Ensures (λ _ w'. Holds base own w') (uses_all rs w)
  unfolding uses_all
  uses_all-Holds [] h alive = ensures h
  uses_all-Holds (resource k p ∷ rs) h alive =
      bind (uses-Holds k p h alive.0) λ _ w' h'. uses_all-Holds rs h' alive.1

module _ {S : Type 0} {base : List Resource} (args : List Resource) where
  pub asking-Answered :
      {A : Type 0} (f : S → Reply A × S) {own : List Resource} {w : World S}
      → Holds base own w
      → Live base own args
      → Ensures (Answered base nothing_new own) (asking args f w)
  unfolding asking
  asking-Answered f h alive =
      bind (uses_all-Holds args h alive)
        λ _ w₁ h₁. bind (call-Holds f h₁) λ r w₂ h₂. status_of-Answered r h₂

  pub creating-Answered :
      (k : Kind) (f : S → Reply ℕ × S) {own : List Resource} {w : World S}
      → Holds base own w
      → Live base own args
      → Ensures (Answered base (new_handle k) own) (creating k args f w)
  unfolding creating
  creating-Answered k f h alive =
      bind (uses_all-Holds args h alive)
        λ _ w₁ h₁. bind (call-Holds f h₁) λ r w₂ h₂. handle_of-Answered k r h₂

  pub reading-Holds :
      {A : Type 0} (f : S → A × S) {own : List Resource} {w : World S}
      → Holds base own w
      → Live base own args
      → Ensures (λ _ w'. Holds base own w') (reading args f w)
  unfolding reading
  reading-Holds f h alive = bind (uses_all-Holds args h alive) λ _ w₁ h₁. call-Holds f h₁

  -- The answer is one that the library gives in some state.
  pub reading-answer :
      {A : Type 0} (f : S → A × S) {own : List Resource} {w : World S}
      → Holds base own w
      → Live base own args
      → Ensures (λ a w'. ((s : S) × (a ≡ (f s).0)) × Holds base own w') (reading args f w)
  unfolding reading call
  reading-answer f h alive =
      bind (uses_all-Holds args h alive)
        λ _ w₁ h₁. ensures ((w₁.libs, refl), record { live = h₁.live })

  pub minting-Holds :
      (k : Kind) (f : S → ℕ × S) {own : List Resource} {w : World S}
      → Holds base own w
      → Live base own args
      → Ensures (λ p w'. Holds base (resource k p ∷ own) w') (minting k args f w)
  unfolding minting
  minting-Holds k f h alive =
      bind (uses_all-Holds args h alive) λ _ w₁ h₁.
        bind (call-Holds f h₁) λ p w₂ h₂. bind (acquire-Holds k p h₂) λ _ w₃ h₃. ensures h₃

  pub allocating-Holds :
      (k : Kind) (f : S → Option ℕ × S) {own : List Resource} {w : World S}
      → Holds base own w
      → Live base own args
      → Ensures (λ r w'. Holds base (opt_owned k r ++ own) w') (allocating k args f w)
  unfolding allocating
  allocating-Holds k f h alive =
      bind (uses_all-Holds args h alive)
        λ _ w₁ h₁. bind (call-Holds f h₁) λ r w₂ h₂. mono (block_of-Holds k r h₂) λ _ _ e. e.1

  pub releasing-Holds :
      (k : Kind) (p : ℕ) (rest : List Resource) (f : S → S) {own : List Resource} {w : World S}
      → Holds base own w
      → Live base own args
      → Same own (resource k p ∷ rest)
      → Ensures (λ _ w'. Holds base rest w') (releasing k p args f w)
  unfolding releasing
  releasing-Holds k p rest f h alive s =
      bind (uses_all-Holds args h alive)
        λ _ w₁ h₁. bind (release-Holds k p rest h₁ s) λ _ w₂ h₂. call-Holds (λ s. (tt, f s)) h₂
