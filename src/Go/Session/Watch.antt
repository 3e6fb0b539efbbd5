-- ===== src/Go/Session/Watch.antt =====
-- `watchContext` of session.go: the goroutine that terminates a run when its context ends, and the
-- function that joins it. What the two do, step by step, interleaves.
use onnxcraft.Common.{ℕ, List, [], ◌∷◌}
use onnxcraft.Native.Machine.{M, pure, ◌>>=◌, ◌>>◌}
use onnxcraft.Bridge.Types.{OcRuntime}
use onnxcraft.Bridge.Interface.{Bridge}
use onnxcraft.Go.Result.{Result, good}
use onnxcraft.Go.Runtime.{GoError, native_error, on_good}

-- The function that `context.AfterFunc` was given: not started, stopped before it started, started,
-- behind `oc_terminate`, or ended, with `done` closed.
pub data Callback : Type 0 where
  armed : Callback
  stopped : Callback
  started : Callback
  terminated : Callback
  ended : Callback

-- The caller: before `finish`, waiting for `done`, about to release the options, or behind that.
pub data Caller : Type 0 where
  using : Caller
  waiting : Caller
  releasing : Caller
  released : Caller

pub record Watch : Type 0 where
  pub options : ℕ
  pub callback : Callback
  pub caller : Caller

-- What may happen next: the context ends and the callback starts, its two statements, and those of
-- `finish`.
pub data Event : Type 0 where
  context_ends : Event
  call_terminate : Event
  close_done : Event
  call_stop : Event
  receive_done : Event
  free_options : Event

-- The callback after an event of its own. One that cannot happen in a state changes nothing, here and
-- below.
abbrev pub begin : Callback → Callback
begin armed = started
begin stopped = stopped
begin started = started
begin terminated = terminated
begin ended = ended

abbrev pub close : Callback → Callback
close armed = armed
close stopped = stopped
close started = started
close terminated = ended
close ended = ended

-- `stop()` stops a callback that has not started, and answers whether it has.
abbrev pub stop : Callback → Callback × Caller
stop armed = (stopped, releasing)
stop stopped = (stopped, waiting)
stop started = (started, waiting)
stop terminated = (terminated, waiting)
stop ended = (ended, waiting)

abbrev pub finish_from : Callback → Caller → Callback × Caller
finish_from b using = stop b
finish_from b waiting = (b, waiting)
finish_from b releasing = (b, releasing)
finish_from b released = (b, released)

-- `<-done`, which waits until `done` is closed.
abbrev pub receive : Callback → Caller → Caller
receive ended waiting = releasing
receive armed m = m
receive stopped m = m
receive started m = m
receive terminated m = m
receive ended using = using
receive ended releasing = releasing
receive ended released = released

module _ {S : Type 0} (c : Bridge S) (r : OcRuntime) where
  unfoldable pub terminate_run : ℕ → Callback → M S Callback
  terminate_run o armed = pure armed
  terminate_run o stopped = pure stopped
  terminate_run o started = do c.oc_terminate r o; pure terminated
  terminate_run o terminated = pure terminated
  terminate_run o ended = pure ended

  unfoldable pub release_options : ℕ → Caller → M S Caller
  release_options o using = pure using
  release_options o waiting = pure waiting
  release_options o releasing = do c.oc_run_options_free r o; pure released
  release_options o released = pure released

  unfoldable pub happen : Event → Watch → M S Watch
  unfolding terminate_run release_options
  happen context_ends x = pure (record x { callback = begin x.callback })
  happen call_terminate x = do
    b ← terminate_run x.options x.callback
    pure (record x { callback = b })
  happen close_done x = pure (record x { callback = close x.callback })
  happen call_stop x =
      let (b, m) = finish_from x.callback x.caller in
      pure (record { options = x.options; callback = b; caller = m })
  happen receive_done x = pure (record x { caller = receive x.callback x.caller })
  happen free_options x = do m ← release_options x.options x.caller; pure (record x { caller = m })

  unfoldable pub interleave : List Event → Watch → M S Watch
  unfolding happen
  interleave [] x = pure x
  interleave (event ∷ events) x = do x' ← happen event x; interleave events x'

  abbrev pub watching : ℕ → Watch
  watching options = record { options = options; callback = armed; caller = using }

  unfoldable pub watch_context : M S (Result GoError Watch)
  unfolding native_error on_good
  watch_context = do
    reply ← c.oc_run_options r
    options ← native_error c r reply
    on_good options λ o. pure (good (watching o))

-- The events that are left when the caller calls `finish` and both goroutines go on to their end.
abbrev pub finish : List Event
finish = call_stop ∷ call_terminate ∷ close_done ∷ receive_done ∷ free_options ∷ []

-- What the goroutine of the callback does, in its order.
abbrev pub callback_events : List Event
callback_events = context_ends ∷ call_terminate ∷ close_done ∷ []

module _ {S : Type 0} (c : Bridge S) (r : OcRuntime) where
  -- A run with a watcher: what happens during it, and `finish`, which is deferred.
  unfoldable pub watch_run : List Event → M S (Result GoError Watch)
  unfolding watch_context on_good interleave
  watch_run events = do
    x ← watch_context c r
    on_good x
        λ x. (do x' ← interleave c r events x; x'' ← interleave c r finish x'; pure (good x''))
