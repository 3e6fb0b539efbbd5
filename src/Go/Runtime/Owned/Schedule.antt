-- ===== src/Go/Runtime/Owned/Schedule.antt =====
-- Loading and closing in whatever order keeps the references balanced, and closing everything gives
-- everything back.
use onnxcraft.Common.{
  ℕ, zero, suc, pos, ◌+◌, ◌≤◌, ◌≡◌, refl, ap, true, List, [], ◌∷◌, ◌++◌, none, some, arith,
  get_elem?, drop, length, inl, inr, Bool-cases, String,
}
use onnxcraft.Native.Ledger.{Kind, Resource, resource, count-append}
use onnxcraft.Native.Machine.{World}
use onnxcraft.Native.Rules.{
  Ensures, ensures, bind, mono, Holds, Holds-frame, Holds-unframe, Same-refl,
}
use onnxcraft.Bridge.Open.Owned.{runtime_owned}
use onnxcraft.Ort.Enums.{OrtErrorCode}
use onnxcraft.Bridge.Interface.{Bridge}
use onnxcraft.Bridge.Interface.Laws.{Handle, the_runtime, IsBridge}
use onnxcraft.Go.Result.{Result}
use onnxcraft.Go.Cgo.{Cgo}
use onnxcraft.Go.Runtime.{
  GoError, Session, SessionOptions, Shared, Call, loading, closing, closing_session, with_loaded,
  counted, first_reference, close_all, load, load_on, step, steps,
}
use onnxcraft.Go.Runtime.Owned.Describe.{SessionLoaded, session_loaded, not_loaded}
use onnxcraft.Go.Runtime.Owned.Load.{load_session-SessionLoaded}
use onnxcraft.Go.Runtime.Owned.Sessions.{served_by-Served, served_by-env, close_at-Balanced}
use onnxcraft.Go.Runtime.Owned.Refs.{
  sessions_owned, open_count, own_count, AllLoaded, served_by, Kept, in_use, given_back, Balanced,
  close_runtime-Balanced,
}

pub drop-length : (ss : List Session) → open_count (drop (length ss) ss) ≡ 0
drop-length [] = refl
drop-length (s ∷ ss) = drop-length ss

module _ {S : Type 0} (cgo : Cgo S) {c : Bridge S} {Code : OrtErrorCode → Type 0}
    (laws : IsBridge S c Code) (base : List Resource) (h : Handle) where
  with_loaded-Balanced :
      (s : Shared) (n : ℕ) {e : Result GoError Session} {w : World S}
      → s.runtime.refs ≡ pos (suc n)
      → suc n ≡ own_count s.runtime.is_closed + open_count s.sessions
      → AllLoaded h s.sessions
      → s.runtime.native ≡ some (the_runtime h)
      → SessionLoaded cgo (sessions_owned s.sessions ++ served_by base h) h e w
      → Balanced base h (with_loaded (counted cgo c s.runtime e) s.sessions) w
  with_loaded-Balanced s n refs total all native (session_loaded {s = x} {ptr} e is i o d held) =
      record {
        total = suc (suc n);
        counted = rw e (omega (arith, total));
        refs = rw refs refl;
        all_loaded = (rw e (is, i, o), all);
        kept = in_use native (Holds-unframe (sessions_owned s.sessions) held (rw e (Same-refl _)));
      }
  with_loaded-Balanced s n refs total all native (not_loaded held) = record {
    total = suc n;
    counted = total;
    refs = refs;
    all_loaded = all;
    kept = in_use native (Holds-unframe (sessions_owned s.sessions) held (Same-refl _));
  }

  load_open :
      (s : Shared) (path : String) (model length : ℕ) (o : SessionOptions) (n : ℕ) {w : World S}
      → s.runtime.refs ≡ pos n
      → n ≡ own_count s.runtime.is_closed + open_count s.sessions
      → 1 ≤ n
      → AllLoaded h s.sessions
      → Kept base h s.sessions s.runtime n w
      → Ensures
          (λ y w'. Balanced base h (with_loaded y s.sessions) w')
          (load_on cgo c s.runtime.native s.runtime path model length o w)
  unfolding load_on
  load_open s path model length o zero refs total some_use all kept = absurd (omega arith)
  load_open s path model length o (suc n) refs total some_use all (in_use native held) =
      let live = sessions_owned s.sessions in
      let lib = resource Kind.library_handle h.library in
      let env = resource Kind.env_handle h.env in
      simp native (
        bind
          (load_session-SessionLoaded cgo laws (live ++ served_by base h) h
            (omega (arith, count-append lib live (served_by base h), served_by-Served base h))
            (omega (arith, count-append env live (served_by base h), served_by-env base h)) o path
            model length (Holds-frame live held (Same-refl [])))
          λ e w₁ loaded. ensures (with_loaded-Balanced s n refs total all native loaded))

  load-Balanced :
      (s : Shared) (path : String) (model length : ℕ) (o : SessionOptions) {w : World S}
      → Balanced base h s w
      → Ensures
          (λ y w'. Balanced base h (with_loaded y s.sessions) w')
          (load cgo c s.runtime path model length o w)
  unfolding load
  load-Balanced s path model length o b = elim (Bool-cases s.runtime.is_closed) [
    | inl t ↦ simp t (ensures b)
    | inr t ↦ simp t (
        load_open s path model length o b.total b.refs b.counted
          (omega (arith, b.counted, ap own_count t)) b.all_loaded b.kept)
  ]

  pub step-Balanced :
      (call : Call) (s : Shared) {w : World S}
      → Balanced base h s w
      → Ensures (Balanced base h) (step cgo c call s w)
  unfolding step
  step-Balanced (loading path model length o) s b =
      bind (load-Balanced s path model length o b) λ y w₁ b₁. ensures b₁
  step-Balanced closing s b = bind (close_runtime-Balanced laws base h s b) λ r w₁ b₁. ensures b₁.0
  step-Balanced (closing_session i) s b =
      mono (close_at-Balanced laws base h s i (get_elem? s.sessions i) refl b) λ s' w₁ b₁. b₁.0

  -- Whatever is called on a runtime and its sessions, and in whatever order: the calls run without a
  -- fault and keep the invariant.
  pub steps-Balanced :
      (calls : List Call) (s : Shared) {w : World S}
      → Balanced base h s w
      → Ensures (Balanced base h) (steps cgo c calls s w)
  unfolding steps
  steps-Balanced [] s b = ensures b
  steps-Balanced (call ∷ calls) s b =
      bind (step-Balanced call s b) λ s' w₁ b₁. steps-Balanced calls s' b₁

  Balanced-given_back :
      (s : Shared) {w : World S}
      → Balanced base h s w
      → s.runtime.is_closed ≡ true
      → open_count s.sessions ≡ 0
      → (s.runtime.native ≡ none) × Holds base [] w
  Balanced-given_back s b closed none_open =
      last b.total (omega (arith, b.counted, ap own_count closed, none_open)) b.kept
    where
      last :
          (n : ℕ) {w : World S}
          → n ≡ 0
          → Kept base h s.sessions s.runtime n w
          → (s.runtime.native ≡ none) × Holds base [] w
      last zero e (given_back native held) = (native, held)
      last (suc n) e k = absurd (omega arith)

  pub close_all-Closed :
      (n : ℕ) (s : Shared) {w : World S}
      → Balanced base h s w
      → open_count (drop n s.sessions) ≡ 0
      → Ensures
          (λ s' w'. (s'.runtime.native ≡ none) × Holds base [] w')
          (steps cgo c (close_all n) s w)
  unfolding steps step
  close_all-Closed zero s b none_open =
      bind {P = λ s' w'. (s'.runtime.native ≡ none) × Holds base [] w'}
        (bind (close_runtime-Balanced laws base h s b)
          λ r w₁ b₁. ensures (Balanced-given_back _ b₁.0 b₁.1 none_open))
        λ s' w₁ p. ensures p
  close_all-Closed (suc n) s b none_open =
      bind (close_at-Balanced laws base h s n (get_elem? s.sessions n) refl b)
        λ s' w₁ b₁. close_all-Closed n s' b₁.0 (b₁.1 none_open)

  -- A runtime that `Open` has just returned, whose library's resources are owned: whatever models are
  -- loaded and whatever is closed, in whatever order and number of calls, no call faults, and closing
  -- all the sessions and the runtime after that, each again or for the first time, gives back the
  -- library, every session and all that they own.
  pub steps-close_all-Holds :
      (version : String) (calls : List Call) {w : World S}
      → Holds base (runtime_owned (the_runtime h) []) w
      → Ensures
          (λ s w'.
            Ensures
              (λ s' w''. (s'.runtime.native ≡ none) × Holds base [] w'')
              (steps cgo c (close_all (length s.sessions)) s w'))
          (steps cgo c calls
            (record { runtime = first_reference (the_runtime h) version; sessions = [] })
            w)
  steps-close_all-Holds version calls held =
      mono
        (steps-Balanced calls _ (record {
          total = 1;
          counted = refl;
          refs = refl;
          all_loaded = tt;
          kept = in_use refl (Holds-frame (runtime_owned (the_runtime h) []) held (Same-refl []));
        }))
        λ s w₁ b. close_all-Closed (length s.sessions) s b (drop-length s.sessions)
