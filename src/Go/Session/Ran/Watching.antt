-- ===== src/Go/Session/Ran/Watching.antt =====
-- The call of the bridge in `run`, with and without a watcher.
use onnxcraft.Common.{
  ℕ, ◌≤◌, ◌≡◌, Bool, false, take, List, [], ◌∷◌, Option, none, some, arith, length,
}
use onnxcraft.Native.Ledger.{Kind, Resource, resource, count, count-append, one_self}
use onnxcraft.Native.Machine.{World, Reply, pure, ◌>>=◌}
use onnxcraft.Native.Rules.{
  Ensures, ensures, bind, mono, Holds, Holds-frame, Holds-unframe, Same-refl, Live, opt_owned,
}
use onnxcraft.Bridge.Types.{OcSession, OcTensor}
use onnxcraft.Bridge.Run.Collect.{Fresh}
use onnxcraft.Bridge.Run.Owned.{outputs_owned}
use onnxcraft.Bridge.Run.Finish.{RunEnds, run_ok, run_bad}
use onnxcraft.Ort.Enums.{OrtErrorCode}
use onnxcraft.Bridge.Interface.{Bridge}
use onnxcraft.Bridge.Interface.Laws.{Handle, the_runtime, Served, LoadedOn, HasSession, IsBridge}
use onnxcraft.Go.Result.{Result, good, bad}
use onnxcraft.Go.Cgo.{Cgo}
use onnxcraft.Go.Runtime.{GoError, on_good}
use onnxcraft.Go.Session.Context.{Context}
use onnxcraft.Go.Session.Watch.{Watch, interleave, finish, callback_events}
use onnxcraft.Go.Session.Run.{Outcome, call_run, after_run, run_plain, run_watched}
use onnxcraft.Go.Session.Watched.States.{not_begun, in_run}
use onnxcraft.Go.Session.Watched.Steps.{finish-Released}
use onnxcraft.Go.Session.Watched.Run.{Starts, watch_starts, no_watch, watch_context-Starts}
use onnxcraft.Go.Session.Ran.Copied.{Full, Taken}
use onnxcraft.Go.Session.Ran.During.{During, during, callback-During}
use onnxcraft.Go.Session.Ran.Called.{returned, call_run-RunEnds, after_run-Taken}

Live-more :
    (k : Kind) (p : Option ℕ) (r : Resource) (base : List Resource)
    → Live base [] (opt_owned k p)
    → Live (r ∷ base) [] (opt_owned k p)
Live-more k none r base live = tt
Live-more k (some p) r base live =
    (omega (arith, live.0, count-append (resource k p) (r ∷ []) base), tt)

module _ {S : Type 0} (cgo : Cgo S) (ctx : Context S) {c : Bridge S} {Code : OrtErrorCode → Type 0}
    (laws : IsBridge S c Code) (base : List Resource) (h : Handle) (served : Served base h)
    (ptr : OcSession) (on : LoadedOn h ptr) (has : HasSession base h ptr) (into : Bool)
    (inputs outputs : List OcTensor) (reads : length inputs ≡ ptr.inputs)
    (writes : length outputs ≡ ptr.outputs) (fresh : into ≡ false → Fresh 0 outputs) where
  abbrev Returns : Outcome → World S → Type 0
  Returns = Taken base [] (Full (returned into ptr.outputs))

  pub run_plain-Taken :
      {w : World S}
      → Holds base [] w
      → Ensures Returns (run_plain cgo ctx c (the_runtime h) into ptr inputs outputs w)
  unfolding run_plain
  run_plain-Taken held =
      bind
        (call_run-RunEnds cgo ctx laws base h served ptr on into none inputs outputs has tt reads
          writes fresh held)
        λ answer w₁ ends. after_run-Taken cgo ctx laws base h served ptr on into answer ends

  module _ (o : ℕ) where
    abbrev options_handle : Resource
    options_handle = resource Kind.run_options_handle o

    -- What is live while the bridge runs.
    abbrev inner : List Resource
    inner = options_handle ∷ base

    inner_more : (q : Resource) → count q base ≤ count q inner
    inner_more q = omega (arith, count-append q (options_handle ∷ []) base)

    inner-Served : Served inner h
    inner-Served = omega (arith, served, inner_more (resource Kind.library_handle h.library))

    inner_options : 1 ≤ count options_handle inner
    inner_options =
        omega
          (arith, one_self options_handle, count-append options_handle (options_handle ∷ []) base)

    inner-HasSession : HasSession inner h ptr
    inner-HasSession = (
      omega (arith, has.0, inner_more (resource Kind.memory_info_handle h.memory)),
      Live-more Kind.session_handle ptr.handle options_handle base has.1,
    )

    callback_after :
        (k : ℕ) (x : Watch) (answer : Reply (Unit {0}) × List OcTensor) {w : World S}
        → During o x
        → RunEnds inner (returned into ptr.outputs) answer w
        → Ensures
            (λ x' w'. During o x' × RunEnds inner (returned into ptr.outputs) answer w')
            (interleave c (the_runtime h) (take k callback_events) x w)
    callback_after k x answer d (run_ok {ts} sized given held) =
        mono
          (callback-During laws inner h inner-Served (outputs_owned ts) o inner_options k x d held)
          λ x' w₁ p. (p.0, run_ok sized given p.1)
    callback_after k x answer d (run_bad {st} r) =
        mono
          (callback-During laws inner h inner-Served (resource Kind.status_handle st ∷ []) o
            inner_options k x d r.held)
          λ x' w₁ p. (p.0, run_bad (record { sized = r.sized; empty = r.empty; held = p.1 }))

    finish-Holds :
        (x : Watch) {w : World S}
        → During o x
        → Holds inner [] w
        → Ensures (λ _ w'. Holds base [] w') (interleave c (the_runtime h) finish x w)
    finish-Holds x (during u) held =
        mono
          (finish-Released laws base h served []
            (in_run u (Holds-unframe (options_handle ∷ []) held (Same-refl (options_handle ∷ [])))))
          λ x' w₁ p. p.1

    module _ (before after : ℕ) where
      call_watched :
          (x : Watch) {w : World S}
          → During o x
          → Holds inner [] w
          → Ensures Returns (
              (call_run cgo ctx c (the_runtime h) into ptr (some x.options) inputs outputs
                  >>= λ answer.
                      interleave c (the_runtime h) (take after callback_events) x >>= λ x'.
                      after_run cgo ctx c (the_runtime h) into ptr answer >>= λ result.
                      interleave c (the_runtime h) finish x' >>= λ _. pure result)
                w)
      call_watched x (during u) held =
          bind
            (call_run-RunEnds cgo ctx laws inner h inner-Served ptr on into (some o) inputs outputs
              inner-HasSession (omega (arith, inner_options), tt) reads writes fresh held)
            λ answer w₁ ends. bind (callback_after after x answer (during u) ends) λ x' w₂ p.
              bind (after_run-Taken cgo ctx laws inner h inner-Served ptr on into answer p.1)
                λ result w₃ t. bind (finish-Holds x' p.0 t.1) λ _ w₄ held₄. ensures (t.0, held₄)

  run_started_watch :
      (before after : ℕ) (x : Result GoError Watch) {w : World S}
      → Starts base [] x w
      → Ensures Returns (
          on_good x
            (λ x.
              (interleave c (the_runtime h) (take before callback_events) x >>= λ x'.
              call_run cgo ctx c (the_runtime h) into ptr (some x'.options) inputs outputs
              >>= λ answer. interleave c (the_runtime h) (take after callback_events) x' >>= λ x''.
                  after_run cgo ctx c (the_runtime h) into ptr answer >>= λ result.
                  interleave c (the_runtime h) finish x'' >>= λ _. pure result))
            w)
  unfolding on_good
  run_started_watch before after (bad e) (no_watch held) = ensures (tt, held)
  run_started_watch before after (good x) (watch_starts {o} held) =
      bind
        (callback-During laws (inner o) h (inner-Served o) [] o (inner_options o) before x
          (during not_begun) (Holds-frame (options_handle o ∷ []) held (Same-refl [])))
        λ x' w₁ p. call_watched o before after x' p.0 p.1

  pub run_watched-Taken :
      (before after : ℕ) {w : World S}
      → Holds base [] w
      → Ensures Returns
          (run_watched cgo ctx c (the_runtime h) into ptr inputs outputs before after w)
  unfolding run_watched
  run_watched-Taken before after held =
      bind (watch_context-Starts laws base h served [] held)
        λ x w₁ s. run_started_watch before after x s
