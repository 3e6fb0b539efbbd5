-- ===== src/Go/Program/Defs.antt =====
-- The calls on a runtime and its sessions, runs included.
use onnxcraft.Common.{ℕ, Bool, if◌then◌else◌, List, [], ◌∷◌, Option, none, some, get_elem?}
use onnxcraft.Native.Machine.{M, pure, ◌>>=◌}
use onnxcraft.Bridge.Types.{OcRuntime, OcTensor}
use onnxcraft.Bridge.Interface.{Bridge}
use onnxcraft.Go.Cgo.{Cgo}
use onnxcraft.Go.Runtime.{Session, Shared, Call, step}
use onnxcraft.Go.Session.Operand.{Operand}
use onnxcraft.Go.Session.Context.{Context}
use onnxcraft.Go.Session.{run_new, run_into}

-- What `runDescriptors` keeps is one buffer, which `Get` answers unless the pool has dropped it; `New`
-- makes an empty one.
pub record Program : Type 0 where
  pub shared : Shared
  pub pool : List OcTensor

-- A call of `Run`, or of `RunInto` with outputs. `kept` says whether the pool still has its buffer,
-- `before` and `after` how far the callback of the context has come when the bridge is called and when
-- it returns.
pub record Request (S : Type 0) : Type 0 where
  pub context : Context S
  pub inputs : List Operand
  pub into : Option (List Operand)
  pub kept : Bool
  pub before : ℕ
  pub after : ℕ

pub data Use (S : Type 0) : Type 0 where
  calling : Call → Use S
  running : ℕ → Request S → Use S

abbrev pub pool_get : Bool → List OcTensor → List OcTensor
pool_get kept pool = if kept then pool else []

module _ {S : Type 0} (cgo : Cgo S) (c : Bridge S) where
  unfoldable pub run_request :
      (owner : Option OcRuntime)
      → Session
      → Request S
      → Option (List Operand)
      → (buffer : List OcTensor) → M S (List OcTensor)
  unfolding run_new run_into
  run_request owner s q none buffer = do
    x ← run_new cgo q.context c owner s q.inputs q.before q.after buffer
    pure (x.1)
  run_request owner s q (some outputs) buffer = do
    x ← run_into cgo q.context c owner s q.inputs q.before q.after outputs buffer
    pure (x.1)

  unfoldable pub run_at : Request S → Option Session → Program → M S Program
  unfolding run_request
  run_at q none p = pure p
  run_at q (some s) p = do
    buffer ← run_request p.shared.runtime.native s q q.into (pool_get q.kept p.pool)
    pure (record { shared = p.shared; pool = buffer })

  unfoldable pub use_step : Use S → Program → M S Program
  unfolding step run_at
  use_step (calling call) p = do
    s ← step cgo c call p.shared
    pure (record { shared = s; pool = p.pool })
  use_step (running i q) p = run_at q (get_elem? p.shared.sessions i) p

  unfoldable pub use_steps : List (Use S) → Program → M S Program
  unfolding use_step
  use_steps [] p = pure p
  use_steps (u ∷ us) p = do p' ← use_step u p; use_steps us p'
