-- ===== src/Go/Tensor/Types.antt =====
-- `DataType` and `Element` of tensor.go. A `DataType` is a number of 8 bits.
use onnxcraft.Common.{ℕ, List, [], ◌∷◌, Option, none, some, get_elem?}

-- The types of elements: Go's kinds, and the two named types of 16 bits.
pub data Element : Type 0 where
  float32 : Element
  float64 : Element
  int8 : Element
  int16 : Element
  int32 : Element
  int64 : Element
  uint8 : Element
  uint16 : Element
  uint32 : Element
  uint64 : Element
  bool : Element
  float16 : Element
  bfloat16 : Element

-- `elementType[T]()`
unfoldable pub element_type : Element → ℕ
element_type float32 = 1
element_type uint8 = 2
element_type int8 = 3
element_type uint16 = 4
element_type int16 = 5
element_type int32 = 6
element_type int64 = 7
element_type bool = 9
element_type float16 = 10
element_type float64 = 11
element_type uint32 = 12
element_type uint64 = 13
element_type bfloat16 = 16

-- The entry of a table of numbers, or 0 behind its end.
unfoldable pub entry_or : Option ℕ → ℕ
entry_or none = 0
entry_or (some n) = n

-- The array `sizes`, whose other entries are 0.
abbrev pub sizes : List ℕ
sizes = 0 ∷ 4 ∷ 1 ∷ 1 ∷ 2 ∷ 2 ∷ 4 ∷ 8 ∷ 0 ∷ 1 ∷ 2 ∷ 8 ∷ 4 ∷ 8 ∷ 0 ∷ 0 ∷ 2 ∷ []

-- `d.size()`
unfoldable pub data_type_size : ℕ → ℕ
unfolding entry_or
data_type_size d = entry_or (get_elem? sizes d)
