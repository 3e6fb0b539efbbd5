-- ===== src/Bridge/Provider/Correct.antt =====
-- An execution provider is appended with no leak, whatever its name and wherever a call fails.
use text.Mathlib.Text.{◌==◌}
use onnxcraft.Common.{ℕ, ◌≤◌, inl, inr, List, [], ◌∷◌, String, arith, Bool-cases}
use onnxcraft.Native.Ledger.{Kind, Resource, resource, count, one_self}
use onnxcraft.Native.Machine.{World, M, Run, done, and_then, Reply}
use onnxcraft.Native.Rules.{
  Ensures, ensures, bind, Holds, Same-refl, Answered, succeeded, failed, new_handle, nothing_new,
}
use onnxcraft.Native.Calls.{asking-Answered, creating-Answered, releasing-Holds, releasing}
use onnxcraft.Ort.Api.{OrtApi}
use onnxcraft.Ort.Calls.{append_cuda, append_tensorrt}
use onnxcraft.Bridge.Open.Correct.{ready_runtime}
use onnxcraft.Bridge.Provider.{
  unless_failed, use_cuda, provider_cuda, use_tensorrt, provider_tensorrt, provider_by_name,
  oc_provider,
}

module _ {S : Type 0} (api : OrtApi S) {base : List Resource} (a o : ℕ)
    (entries : List (String × String)) (own : List Resource)
    (served : 1 ≤ count (resource Kind.library_handle a) base)
    (alive : 1 ≤ count (resource Kind.session_options_handle o) base) where
  unless_failed-Answered :
      (next : M S (Reply (Unit {0}))) {r : Run S (Reply (Unit {0}))} (own' : List Resource)
      → Ensures (Answered base nothing_new own') r
      → ((w : World S) → Holds base own' w → Ensures (Answered base nothing_new own') (next w))
      → Ensures (Answered base nothing_new own') (and_then r (unless_failed api a o entries next))
  unfolding unless_failed
  unless_failed-Answered next own' (ensures (succeeded h)) go = go _ h
  unless_failed-Answered next own' (ensures (failed h)) go = ensures (failed h)

  -- The provider's own options are released after the last call, with or without a status.
  release_after :
      (k : Kind) (p : ℕ) (f : S → S) {r : Run S (Reply (Unit {0}))}
      → Ensures (Answered base nothing_new (resource k p ∷ own)) r
      → Ensures (Answered base nothing_new own) (
          and_then r λ status w.
            and_then
              (releasing k p (resource Kind.library_handle a ∷ []) f w)
              λ _ w'. done status w')
  release_after k p f (ensures (succeeded h)) =
      bind (releasing-Holds _ k p own _ h (omega arith) (Same-refl _))
        λ _ w h'. ensures (succeeded h')
  release_after k p f (ensures (failed {st} h)) =
      bind
        (releasing-Holds _ k p (resource Kind.status_handle st ∷ own) _ h (omega arith)
          (record { counts = λ q. omega arith }))
        λ _ w h'. ensures (failed h')

  use_cuda-Answered :
      {r : Run S (Reply ℕ)}
      → Ensures (Answered base (new_handle Kind.cuda_options_handle) own) r
      → Ensures (Answered base nothing_new own) (and_then r (use_cuda api a o entries))
  unfolding use_cuda
  use_cuda-Answered (ensures (failed h)) = ensures (failed h)
  use_cuda-Answered (ensures (succeeded {a = p} h)) =
      let cuda = resource Kind.cuda_options_handle p in
      release_after Kind.cuda_options_handle p (api.release_cuda_provider_options p) (
        unless_failed-Answered (append_cuda api a o p) (cuda ∷ own)
          (asking-Answered (resource Kind.library_handle a ∷ cuda ∷ []) _ h
            (omega (arith, one_self cuda)))
          λ w₁ h₁. asking-Answered _ _ h₁ (omega (arith, one_self cuda)))

  use_tensorrt-Answered :
      {r : Run S (Reply ℕ)}
      → Ensures (Answered base (new_handle Kind.tensorrt_options_handle) own) r
      → Ensures (Answered base nothing_new own) (and_then r (use_tensorrt api a o entries))
  unfolding use_tensorrt
  use_tensorrt-Answered (ensures (failed h)) = ensures (failed h)
  use_tensorrt-Answered (ensures (succeeded {a = p} h)) =
      let trt = resource Kind.tensorrt_options_handle p in
      release_after Kind.tensorrt_options_handle p (api.release_tensorrt_provider_options p) (
        unless_failed-Answered (append_tensorrt api a o p) (trt ∷ own)
          (asking-Answered (resource Kind.library_handle a ∷ trt ∷ []) _ h
            (omega (arith, one_self trt)))
          λ w₁ h₁. asking-Answered _ _ h₁ (omega (arith, one_self trt)))

  by_name-Answered :
      (name : String) {w : World S}
      → Holds base own w
      → Ensures (Answered base nothing_new own) (provider_by_name api a o entries name w)
  unfolding provider_by_name provider_cuda provider_tensorrt
  by_name-Answered name h = elim (Bool-cases (name == "CUDA")) [
    | inl c ↦ rw c (use_cuda-Answered (creating-Answered _ _ _ h (omega arith)))
    | inr nc ↦ rw nc (elim (Bool-cases (name == "TensorRT")) [
      | inl t ↦ rw t (use_tensorrt-Answered (creating-Answered _ _ _ h (omega arith)))
      | inr nt ↦ rw nt (elim (Bool-cases (name == "OpenVINO")) [
        | inl v ↦ rw v (asking-Answered _ _ h (omega arith))
        | inr nv ↦ rw nv (asking-Answered _ _ h (omega arith))
      ])
    ])
  ]

module _ {S : Type 0} (api : OrtApi S) {base : List Resource} where
  -- With the library and the session options live, `oc_provider` acquires nothing but the status
  -- that it returns, if it returns one: the provider options that it creates for CUDA and TensorRT
  -- are released on every path, for every name.
  pub oc_provider-Answered :
      (p l env memory allocator : ℕ) (version : String) (o : ℕ) (name : String)
      (entries : List (String × String)) (own : List Resource) {w : World S}
      → 1 ≤ count (resource Kind.library_handle l) base
      → 1 ≤ count (resource Kind.session_options_handle o) base
      → Holds base own w
      → Ensures
          (Answered base nothing_new own)
          (oc_provider api (ready_runtime p l env memory allocator version) o name entries w)
  unfolding oc_provider
  oc_provider-Answered p l env memory allocator version o name entries own served alive h =
      by_name-Answered api l o entries own served alive name h
