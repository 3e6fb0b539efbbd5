-- ===== src/Go/Tensor/Typed.antt =====
-- Element types: Go against the C header, and a tensor's data against the type asked for.
use onnxcraft.Common.{
  ℕ, [], ◌∷◌, get_elem?, ◌≡◌, ◌≢◌, refl, sym, ◌∙◌, ap, ℤ, List, length, take, Option, none, some,
  ◌==◌, arith, true, false,
}
use onnxcraft.Ort.Enums.{OnnxTensorElementDataType, element_data_type_value}
use onnxcraft.Go.Tensor.Bounds.{IsSize, tensor_size_lem}
use onnxcraft.Go.Result.{good, bad}
use onnxcraft.Go.Tensor.Types.{Element, element_type, entry_or, data_type_size}
use onnxcraft.Go.Tensor.Defs.{Tensor, TensorError, wrap_data, new_tensor, tensor_data}

-- The enumerator of the header that names the Go type.
abbrev pub onnx_type : Element → OnnxTensorElementDataType
onnx_type Element.float32 = OnnxTensorElementDataType.float
onnx_type Element.float64 = OnnxTensorElementDataType.double
onnx_type Element.int8 = OnnxTensorElementDataType.int8
onnx_type Element.int16 = OnnxTensorElementDataType.int16
onnx_type Element.int32 = OnnxTensorElementDataType.int32
onnx_type Element.int64 = OnnxTensorElementDataType.int64
onnx_type Element.uint8 = OnnxTensorElementDataType.uint8
onnx_type Element.uint16 = OnnxTensorElementDataType.uint16
onnx_type Element.uint32 = OnnxTensorElementDataType.uint32
onnx_type Element.uint64 = OnnxTensorElementDataType.uint64
onnx_type Element.bool = OnnxTensorElementDataType.bool
onnx_type Element.float16 = OnnxTensorElementDataType.float16
onnx_type Element.bfloat16 = OnnxTensorElementDataType.bfloat16

-- The number of bytes of the Go type.
abbrev pub go_size : Element → ℕ
go_size Element.float32 = 4
go_size Element.float64 = 8
go_size Element.int8 = 1
go_size Element.int16 = 2
go_size Element.int32 = 4
go_size Element.int64 = 8
go_size Element.uint8 = 1
go_size Element.uint16 = 2
go_size Element.uint32 = 4
go_size Element.uint64 = 8
go_size Element.bool = 1
go_size Element.float16 = 2
go_size Element.bfloat16 = 2

-- A `DataType` agrees with the header: it has the number of the type that it names, its size is that
-- of the Go type, and the types of the header with a size are exactly those that Go names.
pub record Agrees : Type 0 where
  pub numbered : (e : Element) → element_data_type_value (onnx_type e) ≡ element_type e
  pub measured : (e : Element) → data_type_size (element_type e) ≡ go_size e
  pub complete :
      (t : OnnxTensorElementDataType)
      → data_type_size (element_data_type_value t) ≢ 0
      → (e : Element) × (t ≡ onnx_type e)

numbers-agree : (e : Element) → element_data_type_value (onnx_type e) ≡ element_type e
unfolding element_data_type_value element_type
numbers-agree Element.float32 = refl
numbers-agree Element.float64 = refl
numbers-agree Element.int8 = refl
numbers-agree Element.int16 = refl
numbers-agree Element.int32 = refl
numbers-agree Element.int64 = refl
numbers-agree Element.uint8 = refl
numbers-agree Element.uint16 = refl
numbers-agree Element.uint32 = refl
numbers-agree Element.uint64 = refl
numbers-agree Element.bool = refl
numbers-agree Element.float16 = refl
numbers-agree Element.bfloat16 = refl

sizes-agree : (e : Element) → data_type_size (element_type e) ≡ go_size e
unfolding element_type data_type_size entry_or
sizes-agree Element.float32 = refl
sizes-agree Element.float64 = refl
sizes-agree Element.int8 = refl
sizes-agree Element.int16 = refl
sizes-agree Element.int32 = refl
sizes-agree Element.int64 = refl
sizes-agree Element.uint8 = refl
sizes-agree Element.uint16 = refl
sizes-agree Element.uint32 = refl
sizes-agree Element.uint64 = refl
sizes-agree Element.bool = refl
sizes-agree Element.float16 = refl
sizes-agree Element.bfloat16 = refl

sized-named :
    (t : OnnxTensorElementDataType)
    → data_type_size (element_data_type_value t) ≢ 0
    → (e : Element) × (t ≡ onnx_type e)
unfolding element_data_type_value data_type_size entry_or
sized-named OnnxTensorElementDataType.undefined h = absurd (h refl)
sized-named OnnxTensorElementDataType.float h = (Element.float32, refl)
sized-named OnnxTensorElementDataType.uint8 h = (Element.uint8, refl)
sized-named OnnxTensorElementDataType.int8 h = (Element.int8, refl)
sized-named OnnxTensorElementDataType.uint16 h = (Element.uint16, refl)
sized-named OnnxTensorElementDataType.int16 h = (Element.int16, refl)
sized-named OnnxTensorElementDataType.int32 h = (Element.int32, refl)
sized-named OnnxTensorElementDataType.int64 h = (Element.int64, refl)
sized-named OnnxTensorElementDataType.string h = absurd (h refl)
sized-named OnnxTensorElementDataType.bool h = (Element.bool, refl)
sized-named OnnxTensorElementDataType.float16 h = (Element.float16, refl)
sized-named OnnxTensorElementDataType.double h = (Element.float64, refl)
sized-named OnnxTensorElementDataType.uint32 h = (Element.uint32, refl)
sized-named OnnxTensorElementDataType.uint64 h = (Element.uint64, refl)
sized-named OnnxTensorElementDataType.complex64 h = absurd (h refl)
sized-named OnnxTensorElementDataType.complex128 h = absurd (h refl)
sized-named OnnxTensorElementDataType.bfloat16 h = (Element.bfloat16, refl)
sized-named OnnxTensorElementDataType.float8e4m3fn h = absurd (h refl)
sized-named OnnxTensorElementDataType.float8e4m3fnuz h = absurd (h refl)
sized-named OnnxTensorElementDataType.float8e5m2 h = absurd (h refl)
sized-named OnnxTensorElementDataType.float8e5m2fnuz h = absurd (h refl)
sized-named OnnxTensorElementDataType.uint4 h = absurd (h refl)
sized-named OnnxTensorElementDataType.int4 h = absurd (h refl)
sized-named OnnxTensorElementDataType.float4e2m1 h = absurd (h refl)
sized-named OnnxTensorElementDataType.uint2 h = absurd (h refl)
sized-named OnnxTensorElementDataType.int2 h = absurd (h refl)
sized-named OnnxTensorElementDataType.float8e8m0 h = absurd (h refl)

-- The data types of tensor.go agree with the enumeration ONNXTensorElementDataType of the C header:
-- each Go type has the number of its enumerator and the size of the Go type, and an enumerator has a
-- size only if it is that of a Go type.
pub data_types-Agrees : Agrees
data_types-Agrees = record {
  numbered = numbers-agree;
  measured = sizes-agree;
  complete = sized-named;
}

-- The types by their number.
abbrev element_table : List (Option Element)
element_table =
    none
    ∷ some Element.float32
    ∷ some Element.uint8
    ∷ some Element.int8
    ∷ some Element.uint16
    ∷ some Element.int16
    ∷ some Element.int32
    ∷ some Element.int64
    ∷ none
    ∷ some Element.bool
    ∷ some Element.float16
    ∷ some Element.float64
    ∷ some Element.uint32
    ∷ some Element.uint64
    ∷ none
    ∷ none
    ∷ some Element.bfloat16
    ∷ []

-- The type with a number.
unfoldable element_of : Option (Option Element) → Option Element
element_of none = none
element_of (some e) = e

element_of-element_type :
    (e : Element) → element_of (get_elem? element_table (element_type e)) ≡ some e
unfolding element_of element_type
element_of-element_type Element.float32 = refl
element_of-element_type Element.float64 = refl
element_of-element_type Element.int8 = refl
element_of-element_type Element.int16 = refl
element_of-element_type Element.int32 = refl
element_of-element_type Element.int64 = refl
element_of-element_type Element.uint8 = refl
element_of-element_type Element.uint16 = refl
element_of-element_type Element.uint32 = refl
element_of-element_type Element.uint64 = refl
element_of-element_type Element.bool = refl
element_of-element_type Element.float16 = refl
element_of-element_type Element.bfloat16 = refl

element_type-injective : (e e' : Element) → element_type e ≡ element_type e' → e ≡ e'
element_type-injective e e' same =
    let both : some e ≡ some e' =
      sym (element_of-element_type e)
      ∙ ap (λ n. element_of (get_elem? element_table n)) same
      ∙ element_of-element_type e' in
    cc

eq_false : (a b : ℕ) → a ≢ b → (a == b) ≡ false
eq_false a b ne = ground arith

module _ {A : Type 0} where
  take-length : (xs : List A) → take (length xs) xs ≡ xs
  take-length [] = refl
  take-length (x ∷ xs) = ap (◌∷◌ x) (take-length xs)

  -- What `Data` answers on a tensor of type `e` with the data `xs`.
  pub record Reads (e : Element) (xs : List A) (t : Tensor A) : Type 0 where
    pub same : tensor_data e t ≡ good xs
    pub other :
        (e' : Element)
        → e ≢ e'
        → tensor_data e' t ≡ bad (TensorError.wrong_type (element_type e) (element_type e'))

  whole-Reads :
      (e : Element) (dims : List ℤ) (xs : List A) (n : ℕ)
      → length xs ≡ n
      → Reads e xs (record { data_at = xs; dims = dims; count = n; dtype = element_type e })
  unfolding tensor_data
  whole-Reads e dims xs n full = record {
    same =
        let self : (element_type e == element_type e) ≡ true = ground arith in
        rw (self, sym full) (ap good (take-length xs));
    other = λ e' ne.
        let differs : (element_type e == element_type e') ≡ false =
          eq_false (element_type e) (element_type e') (λ q. ne (element_type-injective e e' q)) in
        rw differs refl;
  }

  -- `NewTensor` accepts data of as many elements as the dimensions call for, where their size in bytes
  -- fits an int, and `Data` then gives back that data at the element type it was made with and an
  -- error at every other one.
  pub new_tensor-Reads :
      (e : Element) (dims : List ℤ) (xs : List A)
      → IsSize dims (data_type_size (element_type e)) (length xs)
      → (t : Tensor A) × (new_tensor e dims xs ≡ good t) × Reads e xs t
  unfolding new_tensor wrap_data
  new_tensor-Reads e dims xs size =
      let accepted = (tensor_size_lem dims (data_type_size (element_type e)) (length xs)).1 size in
      let full : (length xs == length xs) ≡ true = ground arith in
      (_, rw (accepted, full) refl, whole-Reads e dims xs (length xs) refl)
