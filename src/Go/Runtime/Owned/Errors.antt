-- ===== src/Go/Runtime/Owned/Errors.antt =====
-- A status becomes a Go error, and is freed.
use onnxcraft.Common.{ℕ, ◌≡◌, refl, sym, subst, List, ◌∷◌, ◌++◌}
use onnxcraft.Native.Ledger.{Kind, Resource, resource}
use onnxcraft.Native.Machine.{World, M, Run, and_then, Reply, failure}
use onnxcraft.Native.Rules.{
  Ensures, ensures, bind, mono, Holds, Answered, succeeded, failed, nothing_new,
}
use onnxcraft.Ort.Enums.{OrtErrorCode}
use onnxcraft.Bridge.Interface.{Bridge}
use onnxcraft.Bridge.Interface.Laws.{Handle, the_runtime, Served, IsBridge}
use onnxcraft.Go.Result.{Result, good, bad}
use onnxcraft.Go.Runtime.{GoError, native_error, on_good}

-- With a result, `new` of it is owned on top; with an error, nothing is.
pub data Settled {S E A : Type 0} (base : List Resource) (new : A → List Resource)
    (own : List Resource) : Result E A → World S → Type 0 where
  settled : {a : A} {w : World S} → Holds base (new a ++ own) w → Settled base new own (good a) w
  gave_up : {e : E} {w : World S} → Holds base own w → Settled base new own (bad e) w

module _ {S : Type 0} {c : Bridge S} {Code : OrtErrorCode → Type 0} (laws : IsBridge S c Code)
    (base : List Resource) (h : Handle) (served : Served base h) where
  pub native_error-failure :
      {A : Type 0} (st : ℕ) {own : List Resource} {w : World S}
      → Holds base (resource Kind.status_handle st ∷ own) w
      → Ensures
          (λ e w'. ((x : GoError) × (e ≡ bad x)) × Holds base own w')
          (native_error {A = A} c (the_runtime h) (failure st) w)
  unfolding native_error
  native_error-failure st {own} held =
      bind (laws.oc_error_code-Holds base h st own served held) λ code w₁ held₁.
        bind (laws.oc_error_message-Holds base h st own served held₁) λ message w₂ held₂.
          bind (laws.oc_error_free-Holds base h st own served held₂)
            λ _ w₃ held₃. ensures ((_, refl), held₃)

  pub native_error-Settled :
      {A : Type 0} {new : A → List Resource} {own : List Resource} {r : Run S (Reply A)}
      → Ensures (Answered base new own) r
      → Ensures (Settled base new own) (and_then r (native_error c (the_runtime h)))
  unfolding native_error
  native_error-Settled (ensures (succeeded held)) = ensures (settled held)
  native_error-Settled {new} {own} (ensures (failed {st} held)) =
      mono (native_error-failure st held)
        λ e w' p. subst (λ x. Settled base new own x w') (sym p.0.1) (gave_up p.1)

  -- `err := nativeError(call); rest`
  pub then_error :
      {A B : Type 0} {new : A → List Resource} {own : List Resource} {Q : B → World S → Type 0}
      {r : Run S (Reply A)} (k : Result GoError A → M S B)
      → Ensures (Answered base new own) r
      → ((e : Result GoError A) (w : World S) → Settled base new own e w → Ensures Q (k e w))
      → Ensures Q (and_then r λ reply w. and_then (native_error c (the_runtime h) reply w) k)
  then_error k (ensures a) go = bind (native_error-Settled (ensures a)) go

module _ {S : Type 0} where
  pub Settled-live :
      {E : Type 0} {base own : List Resource} {e : Result E (Unit {0})} {w : World S}
      → Settled base nothing_new own e w
      → Holds base own w
  Settled-live (settled held) = held
  Settled-live (gave_up held) = held

  pub Settled-Holds :
      {E : Type 0} {base own : List Resource} {r : Run S (Result E (Unit {0}))}
      → Ensures (Settled base nothing_new own) r
      → Ensures (λ _ w. Holds base own w) r
  Settled-Holds (ensures (settled held)) = ensures held
  Settled-Holds (ensures (gave_up held)) = ensures held

  pub on_good-Holds :
      {A B : Type 0} (e : Result GoError A) (k : A → M S (Result GoError B))
      {base own : List Resource} {w : World S}
      → Holds base own w
      → ((a : A) → Ensures (λ _ w'. Holds base own w') (k a w))
      → Ensures (λ _ w'. Holds base own w') (on_good e k w)
  unfolding on_good
  on_good-Holds (bad e) k held go = ensures held
  on_good-Holds (good a) k held go = go a
