-- ===== src/Go/Program/Runs.antt =====
-- A run among the sessions of a runtime leaves what is live as it was.
use onnxcraft.Common.{
  ℕ, ◌+◌, ◌≤◌, ◌≡◌, refl, zero, suc, Bool, true, false, List, [], ◌++◌, Option, none, some, arith,
  get_elem?,
}
use onnxcraft.Native.Ledger.{Kind, Resource, resource, count, count-append, one_self}
use onnxcraft.Native.Machine.{World, pure, ◌>>=◌}
use onnxcraft.Native.Rules.{
  Ensures, ensures, bind, mono, Holds-frame, Holds-unframe, Same-refl, Live, opt_owned,
}
use onnxcraft.Bridge.Types.{OcSession, OcTensor}
use onnxcraft.Bridge.Open.Owned.{runtime_owned}
use onnxcraft.Bridge.Session.Owned.{ports_owned, blocks_owned}
use onnxcraft.Ort.Enums.{OrtErrorCode}
use onnxcraft.Bridge.Interface.{Bridge}
use onnxcraft.Bridge.Interface.Laws.{Handle, the_runtime, HasSession, Served, IsBridge}
use onnxcraft.Go.Result.{good, bad}
use onnxcraft.Go.Cgo.{Cgo}
use onnxcraft.Go.Runtime.{Runtime, Session, on_good}
use onnxcraft.Go.Runtime.Owned.Refs.{
  sessions_owned, open_count, own_count, AllLoaded, served_by, Kept, in_use, given_back,
}
use onnxcraft.Go.Runtime.Owned.Sessions.{close_at-Removed, served_by-Served}
use onnxcraft.Go.Session.Operand.{Operand}
use onnxcraft.Go.Session.Context.{Context}
use onnxcraft.Go.Session.{Outcome, run_session, run_new, run_into}
use onnxcraft.Go.Session.Ran.Layout.{AllZero}
use onnxcraft.Go.Session.Ran.Result.{run_session-Over, run_session-closed}
use onnxcraft.Go.Program.Defs.{Request, run_request}

Live-in :
    (k : Kind) (p : Option ℕ) (base : List Resource)
    → ((q : Resource) → count q (opt_owned k p) ≤ count q base)
    → Live base [] (opt_owned k p)
Live-in k none base more = tt
Live-in k (some x) base more = (omega (arith, more (resource k x), one_self (resource k x)), tt)

module _ (base : List Resource) (h : Handle) (ss : List Session) where
  -- What is live while a session runs.
  abbrev around : List Resource
  around = sessions_owned ss ++ served_by base h

  around-Served : Served around h
  around-Served =
      let lib = resource Kind.library_handle h.library in
      omega
        (arith, count-append lib (sessions_owned ss) (served_by base h), served_by-Served base h)

  around-HasSession :
      (i : ℕ) (x : Session) (ptr : OcSession)
      → get_elem? ss i ≡ some x
      → x.native ≡ some ptr
      → HasSession around h ptr
  around-HasSession i x ptr at open_now =
      let memory = resource Kind.memory_info_handle h.memory in
      let r = close_at-Removed h ss i x (record x { native = none }) ptr at open_now refl in
      (
        omega (
          arith,
          count-append memory (sessions_owned ss) (served_by base h),
          one_self memory,
          count-append memory (runtime_owned (the_runtime h) []) base,
        ),
        Live-in Kind.session_handle ptr.handle around λ q. omega (
          arith,
          r.owns q,
          count-append q (sessions_owned ss) (served_by base h),
          count-append q (opt_owned Kind.session_handle ptr.handle)
              (ports_owned ptr.port_array (blocks_owned ptr [])),
        ),
      )

module _ {S : Type 0} (cgo : Cgo S) {c : Bridge S} {Code : OrtErrorCode → Type 0}
    (laws : IsBridge S c Code) (base : List Resource) (h : Handle) where
  module _ (r : Runtime) (ss : List Session) (all : AllLoaded h ss) (i : ℕ) (x : Session)
      (at : get_elem? ss i ≡ some x) where
    -- What is live around a run, and the buffer that it gives back.
    abbrev Back : {A : Type 0} → ℕ → A × List OcTensor → World S → Type 0
    Back n y w = Kept base h ss r n w × AllZero y.1

    module _ (ctx : Context S) (into : Bool) (inputs outputs : List Operand)
        (none_given : into ≡ false → outputs ≡ []) (before after : ℕ) (buffer : List OcTensor)
        (clear : AllZero buffer) where
      run_closed :
          (n : ℕ) {w : World S}
          → x.native ≡ none
          → Kept base h ss r n w
          → Ensures
              (Back n)
              (run_session cgo ctx c r.native x into inputs outputs before after buffer w)
      run_closed (suc n) closed (in_use native held) =
          mono
            (run_session-closed cgo ctx c r.native x closed into inputs outputs before after _ _
              buffer clear held)
            λ y w₁ p. (in_use native p.0, p.1)
      run_closed zero closed (given_back native held) =
          mono
            (run_session-closed cgo ctx c r.native x closed into inputs outputs before after _ _
              buffer clear held)
            λ y w₁ p. (given_back native p.0, p.1)

      run_opened :
          (n : ℕ) (ptr : OcSession) {w : World S}
          → n ≡ own_count r.is_closed + open_count ss
          → x.native ≡ some ptr
          → Kept base h ss r n w
          → Ensures
              (Back n)
              (run_session cgo ctx c r.native x into inputs outputs before after buffer w)
      run_opened (suc n) ptr total opened (in_use native held) =
          let gone = close_at-Removed h ss i x (record x { native = none }) ptr at opened refl in
          let (on, reads, writes) = (gone.loads all).0 in
          simp native (
            mono
              (run_session-Over cgo ctx laws (around base h ss) h (around-Served base h ss) ptr on
                (around-HasSession base h ss i x ptr at opened) x
                (record { native = opened; on = on; as_inputs = reads; as_outputs = writes }) into
                inputs outputs none_given before after buffer clear
                (Holds-frame (sessions_owned ss) held (Same-refl [])))
              λ y w₁ p. (
                in_use native
                    (Holds-unframe (sessions_owned ss) p.0.1 (Same-refl (sessions_owned ss))),
                p.1,
              ))
      run_opened zero ptr total opened (given_back native held) =
          let gone = close_at-Removed h ss i x (record x { native = none }) ptr at opened refl in
          absurd (omega (arith, gone.counts, total))

      run_session-Back :
          (n : ℕ) {w : World S}
          → n ≡ own_count r.is_closed + open_count ss
          → Kept base h ss r n w
          → Ensures
              (Back n)
              (run_session cgo ctx c r.native x into inputs outputs before after buffer w)
      run_session-Back n total kept = by_native x.native refl kept
        where
          by_native :
              (p : Option OcSession) {w : World S}
              → x.native ≡ p
              → Kept base h ss r n w
              → Ensures
                  (Back n)
                  (run_session cgo ctx c r.native x into inputs outputs before after buffer w)
          by_native none e kept = run_closed n e kept
          by_native (some ptr) e kept = run_opened n ptr total e kept

    pub run_request-Back :
        (q : Request S) (into : Option (List Operand)) (buffer : List OcTensor) (n : ℕ)
        {w : World S}
        → n ≡ own_count r.is_closed + open_count ss
        → AllZero buffer
        → Kept base h ss r n w
        → Ensures
            (λ b w'. Kept base h ss r n w' × AllZero b)
            (run_request cgo c r.native x q into buffer w)
    unfolding run_request run_new run_into on_good
    run_request-Back q none buffer n total clear kept =
        bind
          (run_session-Back q.context false q.inputs [] (λ _. refl) q.before q.after buffer clear n
            total kept)
          λ y w₁ p. ensures p
    run_request-Back q (some outputs) buffer n total clear kept =
        bind {P = Back n}
          (bind
            (run_session-Back q.context true q.inputs outputs (λ e. absurd cc) q.before q.after
              buffer clear n total kept)
            λ y w₁ p. dropped y.0 y.1 p)
          λ y w₁ p. ensures p
      where
        dropped :
            (result : Outcome) (b : List OcTensor) {w : World S}
            → Kept base h ss r n w × AllZero b
            → Ensures (Back n) ((on_good result (λ _. pure (good tt)) >>= λ err. pure (err, b)) w)
        dropped (good ts) b p = ensures p
        dropped (bad e) b p = ensures p
