-- ===== src/Bridge/Load/Model.antt =====
-- The call of `oc_load` that opens the model, from a path or from memory.
use onnxcraft.Common.{ℕ, String, Option, none, some}
use onnxcraft.Native.Ledger.{Kind}
use onnxcraft.Native.Machine.{M, Reply, failure, pure, ◌>>=◌, ◌>>◌, uses}
use onnxcraft.Ort.Enums.{OrtErrorCode}
use onnxcraft.Ort.Api.{OrtApi, Host, Platform, posix, windows}
use onnxcraft.Ort.Calls.{create_status, create_session, create_session_from_array, free}
use onnxcraft.Bridge.Wide.{wide_path}

module _ {S : Type 0} (api : OrtApi S) (host : Host S) (a env : ℕ) where
  -- With a wide path, on Windows.
  unfoldable pub open_wide : String → (options : ℕ) → (wide : Option ℕ) → M S (Reply ℕ)
  unfolding create_status create_session free
  open_wide path o none = do
    st ← create_status api a OrtErrorCode.fail "invalid UTF-8 model path or out of memory"
    pure (failure st)
  open_wide path o (some p) = do
    uses Kind.heap_block p
    session ← create_session api a env path o
    free host p
    pure session

  unfoldable pub open_path : Platform S → String → (options : ℕ) → M S (Reply ℕ)
  unfolding create_session wide_path open_wide
  open_path (posix os) path o = create_session api a env path o
  open_path (windows os) path o = do wide ← wide_path host os path; open_wide path o wide

  -- `if (path) ... else ...`
  unfoldable pub open_model : Option String → (model length options : ℕ) → M S (Reply ℕ)
  unfolding open_path create_session_from_array
  open_model (some path) model length o = open_path host.platform path o
  open_model none model length o = create_session_from_array api a env model length o
