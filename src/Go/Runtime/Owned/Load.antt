-- ===== src/Go/Runtime/Owned/Load.antt =====
-- `load` of runtime.go leaves behind a loaded session that it has described, or nothing.
use onnxcraft.Common.{
  ℕ, ◌≤◌, subst, sym, inl, inr, String, List, [], ◌∷◌, Option, none, some, arith, Bool-cases,
}
use onnxcraft.Native.Ledger.{Kind, Resource, resource, count, one_self}
use onnxcraft.Native.Machine.{World, Run, M, done, and_then, Reply}
use onnxcraft.Native.Rules.{
  Ensures, ensures, bind, Holds, Holds-frame, Holds-unframe, Same-refl, Same-append_comm,
  new_handle,
}
use onnxcraft.Bridge.Types.{OcSession}
use onnxcraft.Bridge.Session.Owned.{session_owned}
use onnxcraft.Bridge.Options.Correct.{IsLevel}
use onnxcraft.Bridge.Load.Correct.{load_done, load_failed}
use onnxcraft.Ort.Enums.{OrtErrorCode}
use onnxcraft.Bridge.Interface.{Bridge}
use onnxcraft.Bridge.Interface.Laws.{Handle, the_runtime, LoadEndsOn, Served, HasOptions, IsBridge}
use onnxcraft.Go.Result.{Result, good, bad}
use onnxcraft.Go.Cgo.{Cgo, is_empty, c_free}
use onnxcraft.Go.Runtime.{
  GoError, SessionOptions, Session, native_error, on_good, describe_session, call_load, load_model,
  load_with, load_configured, load_session,
}
use onnxcraft.Go.Runtime.Owned.Errors.{
  Settled, settled, gave_up, native_error-failure, then_error, on_good-Holds,
}
use onnxcraft.Go.Runtime.Owned.Options.{
  c_string-Holds, c_free-Holds, add_config-Holds, add_providers-Holds,
}
use onnxcraft.Go.Runtime.Owned.Checked.{oc_options_of-cases}
use onnxcraft.Go.Runtime.Owned.Describe.{
  SessionLoaded, session_loaded, not_loaded, describe_session-SessionLoaded,
}

-- A resource that is given back at the end of the call, with a session or without.
give_back :
    {S : Type 0} {cgo : Cgo S} {base : List Resource} {h : Handle} (r : Resource)
    (m : M S (Unit {0})) {e : Result GoError Session} {w : World S}
    → SessionLoaded cgo (r ∷ base) h e w
    → ((rest : List Resource) (w' : World S)
        → Holds base (r ∷ rest) w'
        → Ensures (λ _ w''. Holds base rest w'') (m w'))
    → Ensures (SessionLoaded cgo base h) (and_then (m w) λ _ w'. done e w')
give_back r m (session_loaded {ptr} e is i o d held) go =
    bind (go (session_owned ptr []) _ (Holds-unframe (r ∷ []) held (Same-append_comm _ (r ∷ []))))
      λ _ w₁ held₁. ensures (session_loaded e is i o d held₁)
give_back r m (not_loaded held) go =
    bind (go [] _ (Holds-unframe (r ∷ []) held (Same-refl _)))
      λ _ w₁ held₁. ensures (not_loaded held₁)

module _ {S : Type 0} (cgo : Cgo S) {c : Bridge S} {Code : OrtErrorCode → Type 0}
    (laws : IsBridge S c Code) (base : List Resource) (h : Handle) (served : Served base h) where
  after_load :
      (o : SessionOptions) {r : Run S (Reply OcSession)}
      → Ensures (LoadEndsOn base h) r
      → Ensures (SessionLoaded cgo base h) (
          and_then r λ reply w.
            and_then
              (native_error c (the_runtime h) reply w)
              λ ptr w'. on_good ptr (describe_session cgo c o) w')
  unfolding native_error on_good
  after_load o (ensures (load_done is told held)) =
      describe_session-SessionLoaded cgo laws base h served o _ is held
  after_load o (ensures (load_failed {st} held)) =
      bind (native_error-failure laws base h served st held)
        λ e w₁ p. rw p.0.1 (ensures (not_loaded p.1))

  call_load-SessionLoaded :
      (o : SessionOptions) (raw model length : ℕ) (path : Option String) {w : World S}
      → 1 ≤ count (resource Kind.env_handle h.env) base
      → HasOptions base raw
      → Holds base [] w
      → Ensures
          (SessionLoaded cgo base h)
          (call_load cgo c (the_runtime h) o raw model length path w)
  unfolding call_load
  call_load-SessionLoaded o raw model length path alive has held =
      after_load o (laws.oc_load-LoadEnds base h path model length raw served alive has held)

module _ {S : Type 0} (cgo : Cgo S) {c : Bridge S} {Code : OrtErrorCode → Type 0}
    (laws : IsBridge S c Code) (base : List Resource) (h : Handle) (served : Served base h)
    (alive : 1 ≤ count (resource Kind.env_handle h.env) base) where
  load_model-SessionLoaded :
      (o : SessionOptions) (raw model length : ℕ) (path : String) {w : World S}
      → HasOptions base raw
      → Holds base [] w
      → Ensures
          (SessionLoaded cgo base h)
          (load_model cgo c (the_runtime h) o raw model length path tt w)
  unfolding load_model
  load_model-SessionLoaded o raw model length path has held = elim (Bool-cases (is_empty path)) [
    | inl t ↦
        rw t (call_load-SessionLoaded cgo laws base h served o raw model length none alive has held)
    | inr t ↦ rw t (
        bind (c_string-Holds cgo path held) λ cpath w₁ held₁.
          let block = resource Kind.heap_block cpath in
          bind
            (call_load-SessionLoaded cgo laws (block ∷ base) h (omega arith) o raw model length
              (some path) (omega arith) (omega arith)
              (Holds-frame (block ∷ []) held₁ (Same-refl [])))
            λ session w₂ loaded.
              give_back block (c_free cgo cpath) loaded
                λ rest w₃ held₃. c_free-Holds cgo cpath rest held₃ (Same-refl _))
  ]

  on_good-SessionLoaded :
      {A : Type 0} (e : Result GoError A) (k : A → M S (Result GoError Session)) {w : World S}
      → Holds base [] w
      → ((a : A) → Ensures (SessionLoaded cgo base h) (k a w))
      → Ensures (SessionLoaded cgo base h) (on_good e k w)
  unfolding on_good
  on_good-SessionLoaded (bad e) k held go = ensures (not_loaded held)
  on_good-SessionLoaded (good a) k held go = go a

module _ {S : Type 0} (cgo : Cgo S) {c : Bridge S} {Code : OrtErrorCode → Type 0}
    (laws : IsBridge S c Code) (base : List Resource) (h : Handle) (served : Served base h)
    (alive : 1 ≤ count (resource Kind.env_handle h.env) base) where
  load_with-SessionLoaded :
      (o : SessionOptions) (raw model length : ℕ) (path : String) {w : World S}
      → Holds base (resource Kind.session_options_handle raw ∷ []) w
      → Ensures
          (SessionLoaded cgo base h)
          (load_with cgo c (the_runtime h) o raw model length path w)
  unfolding load_with
  load_with-SessionLoaded o raw model length path held =
      let handle = resource Kind.session_options_handle raw in
      let served' : Served (handle ∷ base) h = omega arith in
      let has : HasOptions (handle ∷ base) raw = omega (arith, one_self handle) in
      bind
        (add_config-Holds cgo laws (handle ∷ base) h raw served' has o.config
          (Holds-frame (handle ∷ []) held (Same-refl [])))
        λ configured w₁ held₁.
          bind
            (on_good-Holds configured _ held₁
              λ _. add_providers-Holds cgo laws (handle ∷ base) h raw served' has o.providers held₁)
            λ provided w₂ held₂.
              bind
                (on_good-SessionLoaded cgo laws (handle ∷ base) h served' (omega arith) provided _
                  held₂
                  λ _.
                    load_model-SessionLoaded cgo laws (handle ∷ base) h served' (omega arith) o raw
                      model length path has held₂)
                λ session w₃ loaded.
                  give_back handle (c.oc_options_free (the_runtime h) raw) loaded λ rest w₄ held₄.
                    laws.oc_options_free-Holds base h raw rest _ served held₄ (Same-refl _)

  with_options :
      (o : SessionOptions) (path : String) (model length : ℕ) (raw : Result GoError ℕ) {w : World S}
      → Settled base (new_handle Kind.session_options_handle) [] raw w
      → Ensures
          (SessionLoaded cgo base h)
          (on_good raw (λ raw. load_with cgo c (the_runtime h) o raw model length path) w)
  unfolding on_good
  with_options o path model length (good raw) (settled held) =
      load_with-SessionLoaded o raw model length path held
  with_options o path model length (bad e) (gave_up held) = ensures (not_loaded held)

  -- `load` on an open runtime, for every model and all options: it ends with a session that is loaded,
  -- of which everything is owned, or with an error and nothing new, the session options, the copies of
  -- strings and any status freed. The session has a description of each of its inputs and then of each
  -- of its outputs, in order: the text at its name, its element type, which is a supported one, and its
  -- dimensions.
  pub load_session-SessionLoaded :
      (o : SessionOptions) (path : String) (model length : ℕ) {w : World S}
      → Holds base [] w
      → Ensures
          (SessionLoaded cgo base h)
          (load_session cgo c (the_runtime h) o path model length w)
  unfolding load_session load_configured
  load_session-SessionLoaded o path model length held = elim (oc_options_of-cases o) [
    | inl e ↦ rw e (ensures (not_loaded held))
    | inr (config, e, checked) ↦ rw e (
        then_error laws base h served _
          (laws.oc_options_new-Answered base h config [] served
            (subst IsLevel (sym checked.optimization) checked.level) held)
          λ raw w₁ s. with_options o path model length raw s)
  ]
