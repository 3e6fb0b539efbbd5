-- ===== src/Bridge/Open/Steps.antt =====
-- `oc_open` of bridge.c, for both loaders.
use onnxcraft.Common.{ℕ, pos, negsuc, Bool, true, false, String, Option, none, some}
use onnxcraft.Native.Machine.{M, pure, ◌>>=◌, ◌>>◌, deref}
use onnxcraft.Native.Flow.{Exit, next, goto_fail}
use onnxcraft.Ort.Enums.{error_code_value}
use onnxcraft.Ort.Api.{OrtApi, Host, Platform, posix, windows, Posix, Windows}
use onnxcraft.Ort.Calls.{
  get_error_code, get_error_message, release_status, calloc, dlopen, dlerror, dlsym, free,
  get_proc_address, load_library_ex_w, get_last_error, get_api_base, get_api, get_version_string,
}
use onnxcraft.Bridge.Types.{OcRuntime}
use onnxcraft.Bridge.Open.Close.{
  OpenResult, new_runtime, sizeof_runtime, ort_api_version, oc_close, copy_text, fail_open,
}
use onnxcraft.Bridge.Wide.{wide_path}
use onnxcraft.Bridge.Open.Init.{init_runtime}

module _ {S : Type 0} (api : OrtApi S) (host : Host S) where
  -- `if (status) { ... }`, and the end of `oc_open`.
  unfoldable pub finish_open : Exit OcRuntime (Unit {0}) → M S OpenResult
  finish_open (next _ r) = pure (record { code = pos 0; out = some r; error = none })
  finish_open (goto_fail st r) = do
    a ← deref r.api
    code ← get_error_code api a st
    message ← get_error_message api a st
    e ← copy_text api host message
    release_status api a st
    oc_close api host (some r)
    pure (record { code = pos (error_code_value code); out = none; error = e })

  -- `base ? base->GetApi(ORT_API_VERSION) : NULL`
  unfoldable pub ask_api : (library : ℕ) → (base : Bool) → M S Bool
  ask_api l true = get_api host l ort_api_version
  ask_api l false = pure false

  unfoldable pub use_api : OcRuntime → (library : ℕ) → (supported : Bool) → M S OpenResult
  use_api r l false =
      fail_open api host r "ONNX Runtime must support C API version 29 (1.29 or newer)"
  use_api r l true = do
    version ← get_version_string host l
    e ← init_runtime api l (record r { api = some l; version = some version })
    finish_open e

  unfoldable pub use_base : OcRuntime → (library : ℕ) → (exported : Bool) → M S OpenResult
  use_base r l false = fail_open api host r "shared library does not export OrtGetApiBase"
  use_base r l true = do
    base ← get_api_base host l
    supported ← ask_api l base
    use_api r l supported

  -- Where `_WIN32` is not defined.
  unfoldable pub use_library : Posix S → OcRuntime → (library : Option ℕ) → M S OpenResult
  use_library os r none = do message ← dlerror os; fail_open api host r message
  use_library os r (some l) = do
    exported ← dlsym os l "OrtGetApiBase"
    use_base (record r { library = some l }) l exported

  -- `if (!get_api) { ... }` on Windows.
  unfoldable pub use_exported :
      Windows S → OcRuntime → (library : Option ℕ) → (exported : Bool) → M S OpenResult
  use_exported os r none exported = do
    code ← get_last_error os
    fail_open api host r (os.windows_error code)
  use_exported os r (some l) false = do
    code ← get_last_error os
    fail_open api host r (os.windows_error code)
  use_exported os r (some l) true = use_base r l true

  -- `if (r->library) get_api = ...GetProcAddress...`
  unfoldable pub find_export : Windows S → (library : Option ℕ) → M S Bool
  find_export os none = pure false
  find_export os (some l) = get_proc_address os l "OrtGetApiBase"

  unfoldable pub use_wide : Windows S → OcRuntime → (wide : Option ℕ) → M S OpenResult
  use_wide os r none = fail_open api host r "invalid UTF-8 library path or out of memory"
  use_wide os r (some p) = do
    library ← load_library_ex_w os p
    free host p
    exported ← find_export os library
    use_exported os (record r { library = library }) library exported

  unfoldable pub load_library : Platform S → String → OcRuntime → M S OpenResult
  load_library (posix os) path r = do library ← dlopen os path; use_library os r library
  load_library (windows os) path r = do wide ← wide_path host os path; use_wide os r wide

  unfoldable pub use_block : String → (block : Option ℕ) → M S OpenResult
  use_block path none = do
    e ← copy_text api host "allocate runtime: out of memory"
    pure (record { code = negsuc 0; out = none; error = e })
  use_block path (some p) = load_library host.platform path (new_runtime p)

  unfoldable pub oc_open : String → M S OpenResult
  oc_open path = do block ← calloc host 1 sizeof_runtime; use_block path block
