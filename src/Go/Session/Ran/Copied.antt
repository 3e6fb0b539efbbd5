-- ===== src/Go/Session/Ran/Copied.antt =====
-- What the tensors that `run` copies from its outputs are.
use onnxcraft.Common.{
  ℕ, zero, suc, ◌+◌, ◌*◌, ◌≤◌, ◌≡◌, refl, ap, true, false, ◌||◌, inl, inr, ℤ, Bool-cases, List, [],
  ◌∷◌, some, arith, length, get_elem?,
}
use onnxcraft.Native.Ledger.{Kind, Resource, resource, count}
use onnxcraft.Native.Machine.{World, M, deref}
use onnxcraft.Native.Rules.{Ensures, ensures, bind, Holds}
use onnxcraft.Native.Calls.{reading-Holds}
use onnxcraft.Ort.Calls.{tabulate}
use onnxcraft.Bridge.Types.{OcTensor}
use onnxcraft.Bridge.Run.Collect.{Given}
use onnxcraft.Go.Result.{Result, good, bad}
use onnxcraft.Go.Cgo.{Cgo, slice_wraps, slice_null, is_within, value_bytes, value_dims}
use onnxcraft.Go.Tensor.{SizeError, Tensor, max_int, data_type_size, tensor_size}
use onnxcraft.Go.Tensor.Bounds.{IsSize, tensor_size_lem}
use onnxcraft.Go.Runtime.{GoError, on_good}
use onnxcraft.Go.Session.Outputs.{
  output_type, is_inconsistent, copy_output, sized_output, shaped_output, take_output, take_outputs,
}

-- A tensor of bytes whose number is that of its shape and its type.
abbrev pub Sound : Tensor ℕ → Type 0
Sound t =
    IsSize t.dims (data_type_size t.dtype) t.count
    × (length t.data_at ≡ t.count * data_type_size t.dtype)

abbrev pub AllSound : List (Tensor ℕ) → Type 0
AllSound [] = Unit
AllSound (t ∷ ts) = Sound t × AllSound ts

-- The result of a step: no error, or one.
abbrev pub Gives : {A : Type 0} → (A → Type 0) → Result GoError A → Type 0
Gives P (good a) = P a
Gives P (bad e) = Unit

abbrev pub Full : ℕ → List (Tensor ℕ) → Type 0
Full n xs = (length xs ≡ n) × AllSound xs

-- How a step ends on which only `own` is owned.
abbrev pub Taken :
    {S A : Type 0} → (base own : List Resource) → (A → Type 0) → Result GoError A → World S → Type 0
Taken base own P r w = Gives P r × Holds base own w

length-tabulate : {A : Type 0} (f : ℕ → A) (i n : ℕ) → length (tabulate f i n) ≡ n
unfolding tabulate
length-tabulate f i zero = refl
length-tabulate f i (suc n) = omega (arith, length-tabulate f (i + 1) n)

-- Each output holds a value that is live.
abbrev pub AllLive : List Resource → List OcTensor → Type 0
AllLive own [] = Unit
AllLive own (t ∷ ts) =
    ((v : ℕ) × (t.value ≡ some v) × (1 ≤ count (resource Kind.value_handle v) own)) × AllLive own ts

pub Given-AllLive :
    (m : ℕ) (own : List Resource) (ts : List OcTensor)
    → length ts ≡ m
    → Given m ts
    → ((j : ℕ) (t : OcTensor) (v : ℕ)
        → get_elem? ts j ≡ some t
        → t.value ≡ some v
        → 1 ≤ count (resource Kind.value_handle v) own)
    → AllLive own ts
Given-AllLive m own [] sized given live = tt
Given-AllLive zero own (t ∷ ts) sized given live = absurd (omega arith)
Given-AllLive (suc m) own (t ∷ ts) sized given live =
    let (v, has) = given 0 t (omega arith) refl in
    (
      (v, has, live 0 t v refl has),
      Given-AllLive m own ts (omega arith) (λ j x small at. given (suc j) x (omega arith) at)
          λ j x u at. live (suc j) x u at,
    )

-- The test of the code lets the copy go on only where the value has the bytes.
is_within-true :
    (nbytes : ℕ) (t : OcTensor)
    → nbytes ≤ max_int
    → is_inconsistent nbytes t ≡ false
    → is_within t.data_ptr t.bytes nbytes ≡ true
is_within-true nbytes t small fits = ground arith

module _ {S : Type 0} (cgo : Cgo S) (base own : List Resource) where
  pub on_good-Taken :
      {A B : Type 0} {P : A → Type 0} {Q : B → Type 0} (e : Result GoError A)
      (k : A → M S (Result GoError B)) {w : World S}
      → Taken base own P e w
      → ((a : A) → P a → Holds base own w → Ensures (Taken base own Q) (k a w))
      → Ensures (Taken base own Q) (on_good e k w)
  unfolding on_good
  on_good-Taken (bad e) k p go = ensures (tt, p.1)
  on_good-Taken (good a) k p go = go a p.0 p.1

  copy_output-Sound :
      (t : OcTensor) (v : ℕ) (shape : List ℤ) (n : ℕ) {w : World S}
      → 1 ≤ count (resource Kind.value_handle v) own
      → IsSize shape (data_type_size (output_type t)) n
      → is_inconsistent (n * data_type_size (output_type t)) t ≡ false
      → Holds base own w
      → Ensures
          (Taken base own Sound)
          (copy_output cgo t v shape n (n * data_type_size (output_type t)) w)
  unfolding copy_output value_bytes
  copy_output-Sound t v shape n live size fits held =
      let handles = resource Kind.value_handle v ∷ [] in
      let nbytes = n * data_type_size (output_type t) in
      elim (Bool-cases (slice_wraps t.data_ptr nbytes 1)) [
        | inl e ↦ rw e (ensures (tt, held))
        | inr e ↦ rw e (
            rw (is_within-true nbytes t size.fits fits) (
              bind
                {P = λ bytes w'.
                  (length bytes ≡ n * data_type_size (output_type t)) × Holds base own w'}
                (bind (reading-Holds handles (cgo.read_bytes t.data_ptr) held (omega arith, tt))
                  λ byte w₁ held₁. ensures (length-tabulate byte 0 nbytes, held₁))
                λ bytes w₁ p. ensures ((size, p.0), p.1)))
      ]

  sized_output-Sound :
      (i : ℕ) (t : OcTensor) (v : ℕ) (shape : List ℤ) (r : Result SizeError ℕ) {w : World S}
      → 1 ≤ count (resource Kind.value_handle v) own
      → tensor_size shape (data_type_size (output_type t)) ≡ r
      → Holds base own w
      → Ensures (Taken base own Sound) (sized_output cgo i t v shape r w)
  unfolding sized_output
  sized_output-Sound i t v shape (bad e) live size held = ensures (tt, held)
  sized_output-Sound i t v shape (good n) live size held =
      elim (Bool-cases (is_inconsistent (n * data_type_size (output_type t)) t)) [
        | inl e ↦ rw e (ensures (tt, held))
        | inr e ↦ rw e (
            copy_output-Sound t v shape n live
              ((tensor_size_lem shape (data_type_size (output_type t)) n).0 size) e held)
      ]

  shaped_output-Sound :
      (i : ℕ) (t : OcTensor) (v : ℕ) {w : World S}
      → 1 ≤ count (resource Kind.value_handle v) own
      → Holds base own w
      → Ensures (Taken base own Sound) (shaped_output cgo i t v w)
  unfolding shaped_output value_dims
  shaped_output-Sound i t v live held =
      bind
        (bind
          (reading-Holds (resource Kind.value_handle v ∷ []) (cgo.read_dims t.shape) held
            (omega arith, tt))
          λ dim w₁ held₁. ensures held₁)
        λ shape w₁ held₁. sized_output-Sound i t v shape _ live refl held₁

  take_output-Sound :
      (i : ℕ) (t : OcTensor) (v : ℕ) {w : World S}
      → t.value ≡ some v
      → 1 ≤ count (resource Kind.value_handle v) own
      → Holds base own w
      → Ensures (Taken base own Sound) (take_output cgo i t w)
  unfolding take_output deref
  take_output-Sound i t v has live held =
      rw has (elim (Bool-cases (slice_wraps t.shape t.rank 8 || slice_null t.shape t.rank)) [
        | inl e ↦ rw e (ensures (tt, held))
        | inr e ↦ rw e (shaped_output-Sound i t v live held)
      ])

  pub take_outputs-Sound :
      (i : ℕ) (ts : List OcTensor) {w : World S}
      → AllLive own ts
      → Holds base own w
      → Ensures (Taken base own (Full (length ts))) (take_outputs cgo i ts w)
  unfolding take_outputs
  take_outputs-Sound i [] live held = ensures ((refl, tt), held)
  take_outputs-Sound i (t ∷ ts) live held =
      let (v, has, alive) = live.0 in
      bind (take_output-Sound i t v has alive held) λ x w₁ p. on_good-Taken x _ p λ y sound held₁.
        bind (take_outputs-Sound (i + 1) ts live.1 held₁) λ rest w₂ q.
          on_good-Taken rest _ q λ ys full held₂. ensures ((ap suc full.0, (sound, full.1)), held₂)
