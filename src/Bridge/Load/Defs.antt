-- ===== src/Bridge/Load/Defs.antt =====
-- `oc_load` of bridge.c.
use onnxcraft.Common.{ℕ, String, [], Option, none, some}
use onnxcraft.Native.Machine.{M, Reply, success, failure, pure, ◌>>=◌, ◌>>◌, deref, when_some}
use onnxcraft.Native.Flow.{Exit, next, goto_fail}
use onnxcraft.Ort.Enums.{OrtErrorCode}
use onnxcraft.Ort.Api.{OrtApi, Host}
use onnxcraft.Ort.Calls.{create_status, release_type_info, calloc}
use onnxcraft.Bridge.Types.{OcRuntime, OcSession}
use onnxcraft.Bridge.Session.{oc_session_free}
use onnxcraft.Bridge.Load.Body.{LoadLocals, load_body}

-- `calloc(1, sizeof(*s))` and `s->runtime = r`
abbrev pub new_session : ℕ → OcRuntime → OcSession
new_session p r = record {
  self = p;
  runtime = r;
  handle = none;
  inputs = 0;
  outputs = 0;
  ports = none;
  port_array = [];
  names = none;
  name_array = [];
}

-- `sizeof(oc_session)` on a 64-bit target
abbrev pub sizeof_session : ℕ
sizeof_session = 48

module _ {S : Type 0} (api : OrtApi S) (host : Host S) where
  -- `*out = s; return NULL;`, and the label.
  unfoldable pub finish_load : (a : ℕ) → Exit LoadLocals (Unit {0}) → M S (Reply OcSession)
  unfolding release_type_info
  finish_load a (next _ l) = pure (success l.session)
  finish_load a (goto_fail st l) = do
    when_some l.info λ info. release_type_info api a info
    oc_session_free api host (some l.session)
    pure (failure st)

  unfoldable pub use_session_block :
      (a : ℕ)
      → OcRuntime
      → Option String
      → (model length options : ℕ) → Option ℕ
      → M S (Reply OcSession)
  unfolding create_status load_body finish_load deref
  use_session_block a r path model length o none = do
    st ← create_status api a OrtErrorCode.fail "allocate session: out of memory"
    pure (failure st)
  use_session_block a r path model length o (some p) = do
    env ← deref r.env
    allocator ← deref r.allocator
    e ←
        load_body api host a env allocator path model length o
          (record { session = new_session p r; info = none })
    finish_load a e

  unfoldable pub oc_load :
      OcRuntime → Option String → (model length options : ℕ) → M S (Reply OcSession)
  unfolding calloc deref use_session_block
  oc_load r path model length o = do
    a ← deref r.api
    block ← calloc host 1 sizeof_session
    use_session_block a r path model length o block
