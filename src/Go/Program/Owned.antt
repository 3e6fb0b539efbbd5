-- ===== src/Go/Program/Owned.antt =====
-- Whatever a program calls, runs included, nothing leaks and nothing is used after it was released.
use onnxcraft.Common.{
  ℕ, ◌≡◌, refl, Bool, true, false, List, [], ◌∷◌, Option, none, some, String, length, get_elem?,
}
use onnxcraft.Native.Ledger.{Resource}
use onnxcraft.Native.Machine.{World}
use onnxcraft.Native.Rules.{Ensures, ensures, bind, mono, Holds, Holds-frame, Same-refl}
use onnxcraft.Bridge.Types.{OcTensor}
use onnxcraft.Bridge.Open.Owned.{runtime_owned}
use onnxcraft.Ort.Enums.{OrtErrorCode}
use onnxcraft.Bridge.Interface.{Bridge}
use onnxcraft.Bridge.Interface.Laws.{Handle, the_runtime, IsBridge}
use onnxcraft.Go.Cgo.{Cgo}
use onnxcraft.Go.Runtime.{Session, first_reference, close_all, steps}
use onnxcraft.Go.Runtime.Owned.Refs.{in_use, Balanced}
use onnxcraft.Go.Runtime.Owned.Schedule.{drop-length, step-Balanced, close_all-Closed}
use onnxcraft.Go.Session.Ran.Layout.{AllZero}
use onnxcraft.Go.Program.Runs.{run_request-Back}
use onnxcraft.Go.Program.Defs.{
  Program, Request, Use, calling, running, pool_get, run_at, use_step, use_steps,
}

-- The invariant of the references, and that the pool's buffer is clear.
pub record Sane {S : Type 0} (base : List Resource) (h : Handle) (p : Program) (w : World S)
    : Type 0 where
  pub balanced : Balanced base h p.shared w
  pub clear : AllZero p.pool

pool_get-AllZero :
    (kept : Bool) (pool : List OcTensor) → AllZero pool → AllZero (pool_get kept pool)
pool_get-AllZero true pool clear = clear
pool_get-AllZero false pool clear = tt

module _ {S : Type 0} (cgo : Cgo S) {c : Bridge S} {Code : OrtErrorCode → Type 0}
    (laws : IsBridge S c Code) (base : List Resource) (h : Handle) where
  run_at-Sane :
      (q : Request S) (i : ℕ) (x : Option Session) (p : Program) {w : World S}
      → get_elem? p.shared.sessions i ≡ x
      → Sane base h p w
      → Ensures (Sane base h) (run_at cgo c q x p w)
  unfolding run_at
  run_at-Sane q i none p at sane = ensures sane
  run_at-Sane q i (some x) p at sane =
      let b = sane.balanced in
      bind
        (run_request-Back cgo laws base h p.shared.runtime p.shared.sessions b.all_loaded i x at q
          q.into (pool_get q.kept p.pool) b.total b.counted
          (pool_get-AllZero q.kept p.pool sane.clear) b.kept)
        λ buffer w₁ k. ensures (record {
          balanced = record {
            total = b.total;
            counted = b.counted;
            refs = b.refs;
            all_loaded = b.all_loaded;
            kept = k.0;
          };
          clear = k.1;
        })

  use_step-Sane :
      (u : Use S) (p : Program) {w : World S}
      → Sane base h p w
      → Ensures (Sane base h) (use_step cgo c u p w)
  unfolding use_step
  use_step-Sane (calling call) p sane =
      bind (step-Balanced cgo laws base h call p.shared sane.balanced)
        λ s w₁ b. ensures (record { balanced = b; clear = sane.clear })
  use_step-Sane (running i q) p sane = run_at-Sane q i (get_elem? p.shared.sessions i) p refl sane

  use_steps-Sane :
      (us : List (Use S)) (p : Program) {w : World S}
      → Sane base h p w
      → Ensures (Sane base h) (use_steps cgo c us p w)
  unfolding use_steps
  use_steps-Sane [] p sane = ensures sane
  use_steps-Sane (u ∷ us) p sane =
      bind (use_step-Sane u p sane) λ p' w₁ sane₁. use_steps-Sane us p' sane₁

  -- From a runtime that `Open` has just returned, whose library's resources are owned, and an empty
  -- pool: whatever is loaded, run and closed, one call after the other and in whatever order, with
  -- whatever tensors, contexts and pace of the watchers, no call faults; every buffer that the pool
  -- keeps is clear; and closing all the sessions and the runtime after that gives back the library,
  -- every session and all that they own.
  pub use_steps-close_all-Holds :
      (version : String) (us : List (Use S)) {w : World S}
      → Holds base (runtime_owned (the_runtime h) []) w
      → Ensures
          (λ p w'.
            AllZero p.pool
            × Ensures
                (λ s w''. (s.runtime.native ≡ none) × Holds base [] w'')
                (steps cgo c (close_all (length p.shared.sessions)) p.shared w'))
          (use_steps cgo c us
            (record {
              shared = record { runtime = first_reference (the_runtime h) version; sessions = [] };
              pool = [];
            })
            w)
  use_steps-close_all-Holds version us held =
      mono
        (use_steps-Sane us _ (record {
          balanced = record {
            total = 1;
            counted = refl;
            refs = refl;
            all_loaded = tt;
            kept = in_use refl (Holds-frame (runtime_owned (the_runtime h) []) held (Same-refl []));
          };
          clear = tt;
        }))
        λ p w₁ sane. (
          sane.clear,
          close_all-Closed cgo laws base h (length p.shared.sessions) p.shared sane.balanced
              (drop-length p.shared.sessions),
        )
