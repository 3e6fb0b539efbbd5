-- ===== src/Go/Session/Watched/Run.antt =====
-- A run with a watcher, from `watchContext` to the end of `finish`.
use onnxcraft.Common.{ℕ, ◌≡◌, List, ◌∷◌}
use onnxcraft.Native.Ledger.{Kind, Resource, resource}
use onnxcraft.Native.Machine.{World, pure, ◌>>=◌}
use onnxcraft.Native.Rules.{Ensures, ensures, bind, Holds, new_handle}
use onnxcraft.Ort.Enums.{OrtErrorCode}
use onnxcraft.Bridge.Interface.{Bridge}
use onnxcraft.Bridge.Interface.Laws.{Handle, the_runtime, Served, IsBridge}
use onnxcraft.Go.Result.{Result, good, bad}
use onnxcraft.Go.Session.Watch.{
  armed, using, released, Watch, Event, interleave, watch_context, watch_run, finish,
}
use onnxcraft.Go.Runtime.{GoError, on_good}
use onnxcraft.Go.Runtime.Owned.Errors.{Settled, settled, gave_up, then_error}
use onnxcraft.Go.Session.Watched.States.{not_begun, in_run}
use onnxcraft.Go.Session.Watched.Steps.{interleave-Watched, finish-Released}

-- How `watchContext` ends.
pub data Starts {S : Type 0} (base own : List Resource)
    : Result GoError Watch → World S → Type 0 where
  watch_starts :
      {o : ℕ} {w : World S}
      → Holds base (resource Kind.run_options_handle o ∷ own) w
      → Starts base own (good (record { options = o; callback = armed; caller = using })) w
  no_watch : {e : GoError} {w : World S} → Holds base own w → Starts base own (bad e) w

-- A watcher that was started has ended, and its options are released.
abbrev pub IsReleased : Result GoError Watch → Type 0
IsReleased (good x) = x.caller ≡ released
IsReleased (bad e) = Unit

module _ {S : Type 0} {c : Bridge S} {Code : OrtErrorCode → Type 0} (laws : IsBridge S c Code)
    (base : List Resource) (h : Handle) (served : Served base h) (own : List Resource) where
  new_watch :
      (r : Result GoError ℕ) {w : World S}
      → Settled base (new_handle Kind.run_options_handle) own r w
      → Ensures (Starts base own) (
          on_good r (λ o. pure (good (record { options = o; callback = armed; caller = using }))) w)
  unfolding on_good
  new_watch (good o) (settled held) = ensures (watch_starts held)
  new_watch (bad e) (gave_up held) = ensures (no_watch held)

  pub watch_context-Starts :
      {w : World S}
      → Holds base own w
      → Ensures (Starts base own) (watch_context c (the_runtime h) w)
  unfolding watch_context
  watch_context-Starts held =
      then_error laws base h served _ (laws.oc_run_options-Answered base h own served held)
        λ r w₁ s. new_watch r s

  watch_through :
      (events : List Event) (r : Result GoError Watch) {w : World S}
      → Starts base own r w
      → Ensures
          (λ r' w'. IsReleased r' × Holds base own w')
          (on_good r
            (λ x. interleave c (the_runtime h) events x >>= λ x'.
              interleave c (the_runtime h) finish x' >>= λ x''. pure (good x''))
            w)
  unfolding on_good
  watch_through events (bad e) (no_watch held) = ensures (tt, held)
  watch_through events (good x) (watch_starts held) =
      bind (interleave-Watched laws base h served own events x (in_run not_begun held))
        λ x' w₁ i. bind (finish-Released laws base h served own i) λ x'' w₂ p. ensures p

  -- A run with a watcher, whatever happens during it and in whatever order the goroutines take their
  -- steps: `oc_terminate` is never called on options that are not live, and once the caller has
  -- called `finish` and both goroutines go on to their end, the options are released and nothing of
  -- the watcher is live.
  pub watch_run-Holds :
      (events : List Event) {w : World S}
      → Holds base own w
      → Ensures (λ r w'. IsReleased r × Holds base own w') (watch_run c (the_runtime h) events w)
  unfolding watch_run
  watch_run-Holds events held = bind (watch_context-Starts held) λ r w₁ s. watch_through events r s
