-- ===== src/Bridge/Session.antt =====
-- `oc_session_free` of bridge.c.
pub mod Owned
use onnxcraft.Common.{ℕ, zero, suc, ◌+◌, ◌%◌, ◌^◌, List, [], ◌∷◌, Option, none, some}
use onnxcraft.Native.Machine.{M, pure, ◌>>=◌, ◌>>◌, undefined, deref, when_some}
use onnxcraft.Ort.Api.{OrtApi, Host}
use onnxcraft.Ort.Calls.{release_session, allocator_free, free}
use onnxcraft.Bridge.Types.{OcRuntime, OcPort, OcSession}

-- `s->inputs + s->outputs`
abbrev pub port_count : OcSession → ℕ
port_count s = (s.inputs + s.outputs) % 2 ^ 64

module _ {S : Type 0} (api : OrtApi S) (host : Host S) (a : ℕ) (r : OcRuntime) where
  -- The loop over `k` ports from the one that the list begins with.
  unfoldable pub free_ports : (k : ℕ) → List OcPort → M S (Unit {0})
  free_ports zero ps = pure tt
  free_ports (suc k) [] = undefined
  free_ports (suc k) (p ∷ ps) = do
    when_some p.name λ name. (do allocator ← deref r.allocator; allocator_free api a allocator name)
    when_some p.shape λ shape. free host shape
    free_ports k ps

module _ {S : Type 0} (api : OrtApi S) (host : Host S) where
  unfoldable pub oc_session_free : Option OcSession → M S (Unit {0})
  oc_session_free none = pure tt
  oc_session_free (some s) = do
    a ← deref s.runtime.api
    when_some s.handle λ h. release_session api a h
    when_some s.ports λ _. free_ports api host a s.runtime (port_count s) s.port_array
    when_some s.ports λ p. free host p
    when_some s.names λ p. free host p
    free host s.self
