-- ===== src/Ort/Calls/Loader.antt =====
-- The loaders of shared libraries, and the conversion of paths on Windows.
use onnxcraft.Common.{ℕ, Bool, String, [], ◌∷◌, Option}
use onnxcraft.Native.Ledger.{Kind, resource}
use onnxcraft.Native.Machine.{M}
use onnxcraft.Native.Calls.{reading, allocating, releasing}
use onnxcraft.Ort.Api.{Posix, Windows}

module _ {S : Type 0} (os : Posix S) where
  unfoldable pub dlopen : String → M S (Option ℕ)
  dlopen path = allocating Kind.library_handle [] (os.dlopen path)

  unfoldable pub dlerror : M S String
  dlerror = reading [] os.dlerror

  unfoldable pub dlsym : (library : ℕ) → String → M S Bool
  dlsym l name = reading (resource Kind.library_handle l ∷ []) (os.dlsym l name)

  unfoldable pub dlclose : ℕ → M S (Unit {0})
  dlclose l = releasing Kind.library_handle l [] (os.dlclose l)

module _ {S : Type 0} (os : Windows S) where
  unfoldable pub wide_length : String → M S ℕ
  wide_length path = reading [] (os.wide_length path)

  unfoldable pub multi_byte_to_wide_char : String → (buffer length : ℕ) → M S Bool
  multi_byte_to_wide_char path p n =
      reading (resource Kind.heap_block p ∷ []) (os.multi_byte_to_wide_char path p n)

  unfoldable pub load_library_ex_w : (wide : ℕ) → M S (Option ℕ)
  load_library_ex_w p =
      allocating Kind.library_handle (resource Kind.heap_block p ∷ []) (os.load_library_ex_w p)

  unfoldable pub get_proc_address : (library : ℕ) → String → M S Bool
  get_proc_address l name =
      reading (resource Kind.library_handle l ∷ []) (os.get_proc_address l name)

  unfoldable pub free_library : ℕ → M S (Unit {0})
  free_library l = releasing Kind.library_handle l [] (os.free_library l)

  unfoldable pub get_last_error : M S ℕ
  get_last_error = reading [] os.get_last_error
