-- ===== src/Go/Cgo.antt =====
-- What the Go package calls of Go's runtime and standard library: parameters, with the ownership
-- that cgo documents.
use Prim.Native.Char.{code}
use Prim.Native.String.{[] as empty_text, ◌∷◌ as letter}
use onnxcraft.Common.{
  ℕ, ℤ, ◌+◌, ◌-◌, ◌*◌, ◌^◌, List, Bool, true, false, not, ◌&&◌, ◌||◌, String, [], ◌∷◌, ◌==◌, leb,
  ltb, if◌then◌else◌,
}
use onnxcraft.Go.Result.{Result}
use onnxcraft.Native.Ledger.{Kind, resource}
use onnxcraft.Native.Machine.{M, pure, undefined, ◌>>=◌}
use onnxcraft.Ort.Calls.{tabulate}
use onnxcraft.Native.Calls.{minting, reading, releasing}

-- `C.CString` always answers a block, `C.GoString` reads the text at an address, `C.free` frees, and
-- `filepath.Abs` answers a path or an error's text. `read_bytes` and `read_dims` are what native memory
-- holds from an address on, as bytes and as an array of `int64`.
pub record Cgo (S : Type 0) : Type 0 where
  pub c_string : String → S → ℕ × S
  pub go_string : ℕ → S → String × S
  pub free : ℕ → S → S
  pub abs : String → S → Result String String × S
  pub read_bytes : ℕ → S → (ℕ → ℕ) × S
  pub read_dims : ℕ → S → (ℕ → ℤ) × S

-- `unsafe.Slice` panics where the length is negative as an `int` or the slice would go beyond the end
-- of the address space, with `size` bytes for an element, and where it is not empty and at NULL.
abbrev pub slice_wraps : (address n size : ℕ) → Bool
slice_wraps p n size = ltb (2 ^ 63 - 1) n || ltb (2 ^ 64) (p + n * size)

abbrev pub slice_null : (address n : ℕ) → Bool
slice_null p n = not (n == 0) && (p == 0)

abbrev pub is_within : (address size n : ℕ) → Bool
is_within p size n = leb n size && not (slice_null p n)

module _ {S : Type 0} (cgo : Cgo S) where
  unfoldable pub c_string : String → M S ℕ
  c_string s = minting Kind.heap_block [] (cgo.c_string s)

  unfoldable pub c_free : ℕ → M S (Unit {0})
  c_free p = releasing Kind.heap_block p [] (cgo.free p)

  unfoldable pub absolute : String → M S (Result String String)
  absolute path = reading [] (cgo.abs path)

  -- The first `n` bytes of the `size` bytes of data that a value of ONNX Runtime holds. It faults
  -- where there are fewer, or where there is a byte to read at NULL.
  unfoldable pub value_bytes : (value address size n : ℕ) → M S (List ℕ)
  unfolding tabulate
  value_bytes v p size n =
      if is_within p size n
      then (do
        byte ← reading (resource Kind.value_handle v ∷ []) (cgo.read_bytes p)
        pure (tabulate byte 0 n))
      else undefined

  -- The `n` dimensions that ONNX Runtime answers of a value.
  unfoldable pub value_dims : (value address n : ℕ) → M S (List ℤ)
  unfolding tabulate
  value_dims v p n = do
    dim ← reading (resource Kind.value_handle v ∷ []) (cgo.read_dims p)
    pure (tabulate dim 0 n)

  -- The name of a port.
  unfoldable pub name_text : ℕ → M S String
  name_text p = reading (resource Kind.name_block p ∷ []) (cgo.go_string p)

-- `strings.ContainsRune(s, 0)`
unfoldable pub contains_nul : String → Bool
contains_nul empty_text = false
contains_nul (letter c s) = (code c == 0) || contains_nul s

-- `s == ""`
unfoldable pub is_empty : String → Bool
is_empty empty_text = true
is_empty (letter c s) = false
