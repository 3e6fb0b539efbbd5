-- ===== src/Go/Runtime/Owned/Refs.antt =====
-- The references of a runtime: what is live, as goroutines load and close.
use onnxcraft.Common.{
  ℕ, zero, suc, pos, ◌+◌, ◌≡◌, refl, ap, Bool, true, false, List, [], ◌∷◌, ◌++◌, Option, none, some,
  arith, inl, inr, Bool-cases, length,
}
use onnxcraft.Native.Ledger.{Resource}
use onnxcraft.Native.Machine.{World}
use onnxcraft.Native.Rules.{Ensures, ensures, bind, Holds, Holds-unframe, Same-refl}
use onnxcraft.Bridge.Types.{OcSession}
use onnxcraft.Bridge.Open.Owned.{runtime_owned}
use onnxcraft.Bridge.Session.Owned.{session_owned}
use onnxcraft.Ort.Enums.{OrtErrorCode}
use onnxcraft.Bridge.Interface.{Bridge}
use onnxcraft.Bridge.Interface.Laws.{Handle, the_runtime, LoadedOn, IsBridge}
use onnxcraft.Go.Runtime.{Runtime, Session, Shared, release_reference, close_open, close_runtime}

abbrev pub native_owned : Option OcSession → List Resource
native_owned none = []
native_owned (some p) = session_owned p []

abbrev pub sessions_owned : List Session → List Resource
sessions_owned [] = []
sessions_owned (s ∷ ss) = native_owned s.native ++ sessions_owned ss

-- How many of the sessions are open.
abbrev pub native_count : Option OcSession → ℕ
native_count none = 0
native_count (some p) = 1

abbrev pub open_count : List Session → ℕ
open_count [] = 0
open_count (s ∷ ss) = native_count s.native + open_count ss

-- The reference that the runtime has of itself.
abbrev pub own_count : Bool → ℕ
own_count true = 0
own_count false = 1

-- An open session was loaded, and describes its inputs and outputs.
abbrev pub Matches : Handle → Session → Option OcSession → Type 0
Matches h s none = Unit
Matches h s (some p) = LoadedOn h p × (length s.inputs ≡ p.inputs) × (length s.outputs ≡ p.outputs)

abbrev pub AllLoaded : Handle → List Session → Type 0
AllLoaded h [] = Unit
AllLoaded h (s ∷ ss) = Matches h s s.native × AllLoaded h ss

-- What is owned besides the sessions while the library is open.
abbrev pub served_by : List Resource → Handle → List Resource
served_by base h = runtime_owned (the_runtime h) [] ++ base

-- While there are references, the library is open; with the last of them everything is given back.
pub data Kept {S : Type 0} (base : List Resource) (h : Handle) (sessions : List Session)
    : Runtime → ℕ → World S → Type 0 where
  in_use :
      {n : ℕ} {r : Runtime} {w : World S}
      → r.native ≡ some (the_runtime h)
      → Holds (served_by base h) (sessions_owned sessions) w
      → Kept base h sessions r (suc n) w
  given_back :
      {r : Runtime} {w : World S} → r.native ≡ none → Holds base [] w → Kept base h sessions r 0 w

-- The invariant: each open session has a reference, and the runtime one until it is closed.
pub record Balanced {S : Type 0} (base : List Resource) (h : Handle) (s : Shared) (w : World S)
    : Type 0 where
  pub total : ℕ
  pub counted : total ≡ own_count s.runtime.is_closed + open_count s.sessions
  pub refs : s.runtime.refs ≡ pos total
  pub all_loaded : AllLoaded h s.sessions
  pub kept : Kept base h s.sessions s.runtime total w

native_owned-closed : (p : Option OcSession) → native_count p ≡ 0 → native_owned p ≡ []
native_owned-closed none e = refl
native_owned-closed (some p) e = absurd (omega arith)

sessions_owned-closed : (ss : List Session) → open_count ss ≡ 0 → sessions_owned ss ≡ []
sessions_owned-closed [] e = refl
sessions_owned-closed (s ∷ ss) e =
    rw (native_owned-closed s.native (omega arith), sessions_owned-closed ss (omega arith)) refl

module _ {S : Type 0} {c : Bridge S} {Code : OrtErrorCode → Type 0} (laws : IsBridge S c Code)
    (base : List Resource) (h : Handle) where
  -- One reference less.
  pub release-Balanced :
      (r : Runtime) (ss : List Session) (n : ℕ) {w : World S}
      → n ≡ own_count r.is_closed + open_count ss
      → r.refs ≡ pos (suc n)
      → r.native ≡ some (the_runtime h)
      → AllLoaded h ss
      → Holds (served_by base h) (sessions_owned ss) w
      → Ensures
          (λ r' w'.
            Balanced base h (record { runtime = r'; sessions = ss }) w'
            × (r'.is_closed ≡ r.is_closed))
          (release_reference c r w)
  unfolding release_reference
  release-Balanced r ss zero total e native all held =
      let none_owned : sessions_owned ss ≡ [] = sessions_owned-closed ss (omega (arith, total)) in
      let owned = runtime_owned (the_runtime h) [] in
      rw (e, native)
        (bind
          (laws.oc_close-Holds base h [] owned
            (Holds-unframe owned held (rw none_owned (Same-refl owned))) (Same-refl _))
          λ _ w₁ held₁. ensures (
            record {
              total = 0;
              counted = total;
              refs = refl;
              all_loaded = all;
              kept = given_back refl held₁;
            },
            refl,
          ))
  release-Balanced r ss (suc n) total e native all held = rw e (
      ensures (
        record {
          total = suc n;
          counted = total;
          refs = refl;
          all_loaded = all;
          kept = in_use native held;
        },
        refl,
      ))

  pub close_runtime-Balanced :
      (s : Shared) {w : World S}
      → Balanced base h s w
      → Ensures
          (λ r' w'.
            Balanced base h (record { runtime = r'; sessions = s.sessions }) w'
            × (r'.is_closed ≡ true))
          (close_runtime c s.runtime w)
  unfolding close_runtime close_open
  close_runtime-Balanced s b = elim (Bool-cases s.runtime.is_closed) [
    | inl t ↦ simp t (ensures (b, t))
    | inr t ↦ rw t (close_it b.total b.kept b.refs (omega (arith, b.counted, ap own_count t)))
  ]
    where
      close_it :
          (n : ℕ) {w : World S}
          → Kept base h s.sessions s.runtime n w
          → s.runtime.refs ≡ pos n
          → n ≡ 1 + open_count s.sessions
          → Ensures
              (λ r' w'.
                Balanced base h (record { runtime = r'; sessions = s.sessions }) w'
                × (r'.is_closed ≡ true))
              (close_open c s.runtime.native (record s.runtime { is_closed = true }) w)
      close_it zero k e total = absurd (omega arith)
      close_it (suc n) (in_use native held) e total = rw native (
          release-Balanced (record s.runtime { native = some (the_runtime h); is_closed = true })
            s.sessions n (omega arith) e refl b.all_loaded held)
