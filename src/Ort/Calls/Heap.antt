-- ===== src/Ort/Calls/Heap.antt =====
-- `malloc` and its kin, and the functions that the library exports.
use onnxcraft.Common.{ℕ, Bool, String, [], ◌∷◌, Option}
use onnxcraft.Native.Ledger.{Kind, resource}
use onnxcraft.Native.Machine.{M}
use onnxcraft.Native.Calls.{reading, allocating, releasing}
use onnxcraft.Ort.Api.{Host}

module _ {S : Type 0} (host : Host S) where
  unfoldable pub calloc : (count size : ℕ) → M S (Option ℕ)
  calloc n size = allocating Kind.heap_block [] (host.calloc n size)

  unfoldable pub malloc : (size : ℕ) → M S (Option ℕ)
  malloc size = allocating Kind.heap_block [] (host.malloc size)

  unfoldable pub strdup : String → M S (Option ℕ)
  strdup s = allocating Kind.heap_block [] (host.strdup s)

  unfoldable pub free : ℕ → M S (Unit {0})
  free p = releasing Kind.heap_block p [] (host.free p)

  unfoldable pub get_api_base : (library : ℕ) → M S Bool
  get_api_base l = reading (resource Kind.library_handle l ∷ []) (host.get_api_base l)

  unfoldable pub get_api : (library version : ℕ) → M S Bool
  get_api l version = reading (resource Kind.library_handle l ∷ []) (host.get_api l version)

  unfoldable pub get_version_string : (library : ℕ) → M S String
  get_version_string l = reading (resource Kind.library_handle l ∷ []) (host.get_version_string l)
