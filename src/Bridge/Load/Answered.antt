-- ===== src/Bridge/Load/Answered.antt =====
-- What ONNX Runtime has answered of the inputs and outputs that `oc_load` describes.
use onnxcraft.Common.{
  ℕ, ◌+◌, ◌%◌, ◌^◌, ◌<◌, ◌≡◌, ◌⊎◌, inl, inr, sym, ◌∙◌, subst, ℤ, List, [], ◌∷◌, ◌++◌, Option, some,
  arith, length, get_elem?, get_elem?-bound, get_elem?-append_front, get_elem?-append_mid, ltb,
  Bool-cases, length-append,
}
use onnxcraft.Native.Calls.{Answers}
use onnxcraft.Ort.Enums.{OnnxType}
use onnxcraft.Ort.Api.{OrtApi}
use onnxcraft.Ort.Calls.{tabulate}
use onnxcraft.Bridge.Types.{OcPort, OcSession}

module _ {S : Type 0} (api : OrtApi S) where
  -- The dimensions are those of the tensor.
  abbrev pub DimsAnswered : (tensor : Option ℕ) → (rank : ℕ) → Option (List ℤ) → Type 0
  DimsAnswered tensor rank dims =
      (rank ≡ 0)
      ⊎ ((f : ℕ → ℤ) × Answers (api.get_dimensions tensor rank) f
          × (dims ≡ some (tabulate f 0 rank)))

  module _ (session allocator inputs i : ℕ) where
    -- The name and the type info are those of input `i`, or behind the inputs of the output whose
    -- place it is.
    pub record Fetches (name info : ℕ) : Type 0 where
      pub input_name : i < inputs → Answers (api.session_get_input_name session i allocator) name
      pub input_info : i < inputs → Answers (api.session_get_input_type_info session i) info
      pub output_name :
          (k : ℕ) → i ≡ inputs + k → Answers (api.session_get_output_name session k allocator) name
      pub output_info :
          (k : ℕ) → i ≡ inputs + k → Answers (api.session_get_output_type_info session k) info

    -- Port `i` has the name that ONNX Runtime answers for it, and the type, rank and dimensions that
    -- it answers for its type info, which is that of a tensor.
    pub record PortAnswered (p : OcPort) : Type 0 where
      pub name : ℕ
      pub info : ℕ
      pub tensor : Option ℕ
      pub count : ℕ
      pub fetches : Fetches name info
      pub is_named : p.name ≡ some name
      pub is_tensor : Answers (api.get_onnx_type_from_type_info info) OnnxType.tensor
      pub is_cast : Answers (api.cast_type_info_to_tensor_info info) tensor
      pub has_type : Answers (api.get_tensor_element_type tensor) p.type
      pub has_count : Answers (api.get_dimensions_count tensor) count
      pub has_rank : p.rank ≡ count % 2 ^ 64
      pub has_dims : DimsAnswered tensor p.rank p.dims

  -- The counts and all the ports of a session are what ONNX Runtime answers for its handle.
  pub record SessionAnswered (allocator : ℕ) (s : OcSession) : Type 0 where
    pub handle : ℕ
    pub inputs : ℕ
    pub outputs : ℕ
    pub is_handle : s.handle ≡ some handle
    pub has_inputs : Answers (api.session_get_input_count handle) inputs
    pub has_outputs : Answers (api.session_get_output_count handle) outputs
    pub counts_inputs : s.inputs ≡ inputs % 2 ^ 64
    pub counts_outputs : s.outputs ≡ outputs % 2 ^ 64
    pub ports :
        (i : ℕ) (p : OcPort)
        → get_elem? s.port_array i ≡ some p
        → PortAnswered handle allocator s.inputs i p

-- Each port has what is said of its index.
abbrev pub Each : (ℕ → OcPort → Type 0) → List OcPort → Type 0
Each P ps = (i : ℕ) → (p : OcPort) → get_elem? ps i ≡ some p → P i p

some_inj : {A : Type 0} {x y : A} → ◌≡◌ {A = Option A} (some x) (some y) → x ≡ y
some_inj e = cc

pub Each-nil : (P : ℕ → OcPort → Type 0) → Each P []
Each-nil P i p e = absurd cc

pub Each-snoc :
    (P : ℕ → OcPort → Type 0) (ps : List OcPort) (x : OcPort)
    → Each P ps
    → P (length ps) x
    → Each P (ps ++ (x ∷ []))
Each-snoc P ps x all last i p e = elim (Bool-cases (ltb i (length ps))) [
  | inl lt ↦ all i p (sym (get_elem?-append_front ps (x ∷ []) i (ground arith)) ∙ e)
  | inr ge ↦
      let bound : i < length (ps ++ (x ∷ [])) = get_elem?-bound (ps ++ (x ∷ [])) i p e in
      let here : length ps ≡ i = ground (arith, length-append ps (x ∷ [])) in
      let same : x ≡ p = some_inj (sym (get_elem?-append_mid ps x [] i here) ∙ e) in
      subst (λ y. P i y) same (subst (λ j. P j x) here last)
]
