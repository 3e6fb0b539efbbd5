-- ===== src/Bridge/Open/Close.antt =====
-- `oc_close` of bridge.c, and the exits of `oc_open` before there is a status.
use onnxcraft.Common.{ℕ, ℤ, negsuc, String, Option, none, some}
use onnxcraft.Native.Machine.{M, pure, ◌>>=◌, ◌>>◌, deref, when_some}
use onnxcraft.Ort.Api.{OrtApi, Host, Platform, posix, windows}
use onnxcraft.Ort.Calls.{release_memory_info, release_env, strdup, free, dlclose, free_library}
use onnxcraft.Bridge.Types.{OcRuntime}

-- A C string in a block of its own.
pub record Text : Type 0 where
  pub block : ℕ
  pub text : String

-- The value of `oc_open`, and what it writes to `*out` and `*error`.
pub record OpenResult : Type 0 where
  pub code : ℤ
  pub out : Option OcRuntime
  pub error : Option Text

-- `calloc(1, sizeof(*r))`
abbrev pub new_runtime : ℕ → OcRuntime
new_runtime p = record {
  self = p;
  library = none;
  api = none;
  env = none;
  memory = none;
  allocator = none;
  version = none;
}

-- `sizeof(oc_runtime)` on a 64-bit target
abbrev pub sizeof_runtime : ℕ
sizeof_runtime = 48

-- `ORT_API_VERSION`
abbrev pub ort_api_version : ℕ
ort_api_version = 29

abbrev pub text_at : String → Option ℕ → Option Text
text_at s none = none
text_at s (some p) = some (record { block = p; text = s })

-- `FreeLibrary` or `dlclose`
unfoldable pub close_library : {S : Type 0} → Platform S → ℕ → M S (Unit {0})
unfolding dlclose free_library
close_library (posix os) l = dlclose os l
close_library (windows os) l = free_library os l

module _ {S : Type 0} (api : OrtApi S) (host : Host S) where
  unfoldable pub oc_close : Option OcRuntime → M S (Unit {0})
  oc_close none = pure tt
  oc_close (some r) = do
    when_some r.memory λ p. (do a ← deref r.api; release_memory_info api a p)
    when_some r.env λ p. (do a ← deref r.api; release_env api a p)
    when_some r.library λ l. close_library host.platform l
    free host r.self

  -- `*error = strdup(message)`
  unfoldable pub copy_text : String → M S (Option Text)
  copy_text s = do p ← strdup host s; pure (text_at s p)

  -- `*error = strdup(message); goto fail;`
  unfoldable pub fail_open : OcRuntime → String → M S OpenResult
  unfolding oc_close copy_text
  fail_open r message = do
    e ← copy_text message
    oc_close (some r)
    pure (record { code = negsuc 0; out = none; error = e })
