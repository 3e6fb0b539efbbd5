-- ===== src/Go/Session/Context.antt =====
-- What `run` of session.go asks of its context and of the session's gate: parameters. `err` is nil
-- until the context ends.
use onnxcraft.Common.{Bool, [], String, Option}
use onnxcraft.Native.Machine.{M}
use onnxcraft.Native.Calls.{reading}

-- `cancelable` says whether `Done()` is a channel. `enter` is the `select` on the gate: none where the
-- gate was entered, and else the error of the context, which has ended.
pub record Context (S : Type 0) : Type 0 where
  pub cancelable : Bool
  pub err : S → Option String × S
  pub enter : S → Option String × S

module _ {S : Type 0} (ctx : Context S) where
  unfoldable pub context_err : M S (Option String)
  context_err = reading [] ctx.err

  unfoldable pub enter_gate : M S (Option String)
  enter_gate = reading [] ctx.enter
