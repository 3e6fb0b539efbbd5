-- ===== src/Go/Runtime/Schedule.antt =====
-- The calls that a program makes on a runtime and its sessions. The mutex of the runtime makes each
-- one step, so that any schedule of goroutines is a list of calls.
use onnxcraft.Common.{ℕ, zero, suc, String, List, [], ◌∷◌, Option, none, some, get_elem?, set}
use onnxcraft.Native.Machine.{M, pure, ◌>>=◌}
use onnxcraft.Bridge.Interface.{Bridge}
use onnxcraft.Go.Result.{Result, good, bad}
use onnxcraft.Go.Cgo.{Cgo}
use onnxcraft.Go.Runtime.Types.{GoError, Runtime, SessionOptions, Session}
use onnxcraft.Go.Runtime.Refs.{close_runtime, close_session, load}

-- A runtime and the sessions that were loaded with it.
pub record Shared : Type 0 where
  pub runtime : Runtime
  pub sessions : List Session

-- `closing_session i` is `Close` of the session at index i.
pub data Call : Type 0 where
  loading : (path : String) → (model length : ℕ) → SessionOptions → Call
  closing : Call
  closing_session : ℕ → Call

-- `Close` of the first n sessions and of the runtime.
abbrev pub close_all : ℕ → List Call
close_all zero = closing ∷ []
close_all (suc n) = closing_session n ∷ close_all n

-- A call of `load` adds its session, if it returns one.
abbrev pub with_loaded : Result GoError Session × Runtime → List Session → Shared
with_loaded (good s, r) ss = record { runtime = r; sessions = s ∷ ss }
with_loaded (bad e, r) ss = record { runtime = r; sessions = ss }

module _ {S : Type 0} (c : Bridge S) where
  unfoldable pub close_at : ℕ → Option Session → Shared → M S Shared
  unfolding close_session
  close_at i none s = pure s
  close_at i (some x) s = do
    y ← close_session c x s.runtime
    pure (record { runtime = y.1; sessions = set s.sessions i y.0 })

module _ {S : Type 0} (cgo : Cgo S) (c : Bridge S) where
  unfoldable pub step : Call → Shared → M S Shared
  unfolding load close_runtime close_at
  step (loading path model length o) s = do
    y ← load cgo c s.runtime path model length o
    pure (with_loaded y s.sessions)
  step closing s = do
    r ← close_runtime c s.runtime
    pure (record { runtime = r; sessions = s.sessions })
  step (closing_session i) s = close_at c i (get_elem? s.sessions i) s

  unfoldable pub steps : List Call → Shared → M S Shared
  unfolding step
  steps [] s = pure s
  steps (call ∷ calls) s = do s' ← step call s; steps calls s'
