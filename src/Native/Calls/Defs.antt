-- ===== src/Native/Calls/Defs.antt =====
-- The kinds of calls that the bridge makes. Every argument that is a handle must be live.
use onnxcraft.Common.{ℕ, List, [], ◌∷◌, Option}
use onnxcraft.Native.Ledger.{Kind, Resource, resource}
use onnxcraft.Native.Machine.{
  M, Reply, pure, ◌>>=◌, ◌>>◌, acquire, release, uses, call, status_of, handle_of, block_of,
}

module _ {S : Type 0} where
  unfoldable pub uses_all : List Resource → M S (Unit {0})
  unfolding uses
  uses_all [] = pure tt
  uses_all (resource k p ∷ rs) = uses k p >> uses_all rs

  -- A function that returns an `OrtStatus *` and at most plain data.
  unfoldable pub asking : {A : Type 0} → List Resource → (S → Reply A × S) → M S (Reply A)
  unfolding uses_all call status_of
  asking args f = do uses_all args; r ← call f; status_of r

  -- One whose out parameter is a new handle, which the caller must release.
  unfoldable pub creating : Kind → List Resource → (S → Reply ℕ × S) → M S (Reply ℕ)
  unfolding uses_all call handle_of
  creating k args f = do uses_all args; r ← call f; handle_of k r

  -- One that returns a plain value.
  unfoldable pub reading : {A : Type 0} → List Resource → (S → A × S) → M S A
  unfolding uses_all call
  reading args f = do uses_all args; call f

  -- One that returns a new handle and cannot fail.
  unfoldable pub minting : Kind → List Resource → (S → ℕ × S) → M S ℕ
  unfolding uses_all call acquire
  minting k args f = do uses_all args; p ← call f; acquire k p; pure p

  -- One that allocates: NULL, or what the caller must free.
  unfoldable pub allocating : Kind → List Resource → (S → Option ℕ × S) → M S (Option ℕ)
  unfolding uses_all call block_of
  allocating k args f = do uses_all args; r ← call f; block_of k r

  -- One that takes the ownership of its argument: `ReleaseX`, `free`, `dlclose`.
  unfoldable pub releasing : Kind → ℕ → List Resource → (S → S) → M S (Unit {0})
  unfolding uses_all call release
  releasing k p args f = do uses_all args; release k p; call λ s. (tt, f s)
