-- ===== src/Go/Runtime/Owned/Sessions.antt =====
-- Loading and closing sessions keeps the references balanced, whatever the order of the calls.
use onnxcraft.Common.{
  ℕ, zero, suc, pos, ◌+◌, ◌≤◌, ◌≡◌, refl, sym, subst, ap, List, [], ◌∷◌, Option, none, some, arith,
  get_elem?, set, drop,
}
use onnxcraft.Native.Ledger.{Kind, Resource, resource, count, count-append, one_self}
use onnxcraft.Native.Machine.{World}
use onnxcraft.Native.Rules.{Ensures, ensures, bind, Same}
use onnxcraft.Bridge.Types.{OcSession}
use onnxcraft.Bridge.Session.Owned.{session_owned, Same-session_owned}
use onnxcraft.Ort.Enums.{OrtErrorCode}
use onnxcraft.Bridge.Interface.{Bridge}
use onnxcraft.Bridge.Interface.Laws.{Handle, Served, IsBridge}
use onnxcraft.Go.Runtime.{Session, Shared, close_native, close_session, close_at}
use onnxcraft.Go.Runtime.Owned.Refs.{
  sessions_owned, open_count, native_owned, own_count, AllLoaded, Matches, served_by, Kept, in_use,
  Balanced, release-Balanced,
}

set-get_elem? :
    (ss : List Session) (i : ℕ) (x : Session) → get_elem? ss i ≡ some x → set ss i x ≡ ss
set-get_elem? [] i x e = refl
set-get_elem? (s ∷ ss) zero x e = ap (λ y. y ∷ ss) cc
set-get_elem? (s ∷ ss) (suc i) x e = ap (◌∷◌ s) (set-get_elem? ss i x e)

-- The session at an index goes from the lists.
pub record Removed (h : Handle) (x : Session) (p : OcSession) (ss ss' : List Session) : Type 0 where
  pub counts : open_count ss ≡ suc (open_count ss')
  pub loads : AllLoaded h ss → Matches h x (some p) × AllLoaded h ss'
  pub owns :
      (q : Resource)
      → count q (sessions_owned ss) ≡ count q (session_owned p []) + count q (sessions_owned ss')

pub close_at-Removed :
    (h : Handle) (ss : List Session) (i : ℕ) (x y : Session) (p : OcSession)
    → get_elem? ss i ≡ some x
    → x.native ≡ some p
    → y.native ≡ none
    → Removed h x p ss (set ss i y)
close_at-Removed h [] i x y p e e' e'' = cc
close_at-Removed h (s ∷ ss) zero x y p e e' e'' =
    let same : s ≡ x = cc in
    let open_here : s.native ≡ some p = rw same e' in
    record {
      counts = rw (open_here, e'') (omega arith);
      loads = λ all. (
        subst (λ z. Matches h z (some p)) same (subst (Matches h s) open_here all.0),
        rw e'' (tt, all.1),
      );
      owns = λ q. rw (open_here, e'') (count-append q (session_owned p []) (sessions_owned ss));
    }
close_at-Removed h (s ∷ ss) (suc i) x y p e e' e'' =
    let r = close_at-Removed h ss i x y p e e' e'' in
    record {
      counts = omega (arith, r.counts);
      loads = λ all. let l = r.loads all.1 in (l.0, (all.0, l.1));
      owns = λ q. omega (
        arith,
        r.owns q,
        count-append q (native_owned s.native) (sessions_owned ss),
        count-append q (native_owned s.native) (sessions_owned (set ss i y)),
      );
    }

none-drop : (ss : List Session) (i : ℕ) → get_elem? ss i ≡ none → open_count (drop i ss) ≡ 0
none-drop [] zero e = refl
none-drop [] (suc i) e = refl
none-drop (s ∷ ss) zero e = cc
none-drop (s ∷ ss) (suc i) e = none-drop ss i e

set-drop :
    (ss : List Session) (i : ℕ) (x y : Session)
    → get_elem? ss i ≡ some x
    → y.native ≡ none
    → open_count (drop (suc i) ss) ≡ 0
    → open_count (drop i (set ss i y)) ≡ 0
set-drop [] i x y at e behind = cc
set-drop (s ∷ ss) zero x y at e behind = rw e (omega (arith, behind))
set-drop (s ∷ ss) (suc i) x y at e behind = set-drop ss i x y at e behind

-- The library and the environment are live while the runtime is in use.
pub served_by-Served : (base : List Resource) (h : Handle) → Served (served_by base h) h
served_by-Served base h = omega (arith, one_self (resource Kind.library_handle h.library))

pub served_by-env :
    (base : List Resource) (h : Handle)
    → 1 ≤ count (resource Kind.env_handle h.env) (served_by base h)
served_by-env base h = omega (arith, one_self (resource Kind.env_handle h.env))

Removed-Same :
    {h : Handle} {x : Session} {p : OcSession} {ss ss' : List Session}
    → Removed h x p ss ss'
    → Same (sessions_owned ss) (session_owned p (sessions_owned ss'))
Removed-Same {p} {ss} {ss'} r =
    let behind = Same-session_owned p (sessions_owned ss') in
    record {
      counts = λ q. omega (
        arith,
        r.owns q,
        behind.counts q,
        count-append q (sessions_owned ss') (session_owned p []),
      );
    }

module _ {S : Type 0} {c : Bridge S} {Code : OrtErrorCode → Type 0} (laws : IsBridge S c Code)
    (base : List Resource) (h : Handle) where
  close_open_session :
      (s : Shared) (i : ℕ) (x : Session) (p : OcSession) (n : ℕ) {w : World S}
      → get_elem? s.sessions i ≡ some x
      → x.native ≡ some p
      → s.runtime.refs ≡ pos n
      → n ≡ own_count s.runtime.is_closed + open_count s.sessions
      → AllLoaded h s.sessions
      → Kept base h s.sessions s.runtime n w
      → Ensures
          (λ y w'.
            Balanced base h (record { runtime = y.1; sessions = set s.sessions i y.0 }) w'
            × (y.0.native ≡ none))
          (close_native c (some p) x s.runtime w)
  unfolding close_native
  close_open_session s i x p zero at e refs total all kept =
      let r = close_at-Removed h s.sessions i x (record x { native = none }) p at e refl in
      absurd (omega (arith, r.counts, total))
  close_open_session s i x p (suc n) at e refs total all (in_use native held) =
      let x' : Session = record x { native = none } in
      let r = close_at-Removed h s.sessions i x x' p at e refl in
      let l = r.loads all in
      bind
        (laws.oc_session_free-Holds (served_by base h) h p (sessions_owned (set s.sessions i x')) _
          (served_by-Served base h) l.0.0 held (Removed-Same r))
        λ _ w₁ held₁.
          bind
            (release-Balanced laws base h s.runtime (set s.sessions i x') n
              (omega (arith, total, r.counts)) refs native l.1 held₁)
            λ r' w₂ b. ensures (b.0, refl)

  close_it :
      (s : Shared) (i : ℕ) (x : Session) (p : Option OcSession) {w : World S}
      → get_elem? s.sessions i ≡ some x
      → x.native ≡ p
      → Balanced base h s w
      → Ensures
          (λ y w'.
            Balanced base h (record { runtime = y.1; sessions = set s.sessions i y.0 }) w'
            × (y.0.native ≡ none))
          (close_native c p x s.runtime w)
  unfolding close_native
  close_it s i x none {w} at e b = ensures (
    subst (λ ss. Balanced base h (record { runtime = s.runtime; sessions = ss }) w)
        (sym (set-get_elem? s.sessions i x at)) b,
    e,
  )
  close_it s i x (some p) at e b =
      close_open_session s i x p b.total at e b.refs b.counted b.all_loaded b.kept

  -- After `Close` of the session at an index, none is open from there if none was behind it.
  pub close_at-Balanced :
      (s : Shared) (i : ℕ) (x : Option Session) {w : World S}
      → get_elem? s.sessions i ≡ x
      → Balanced base h s w
      → Ensures
          (λ s' w'.
            Balanced base h s' w'
            × (open_count (drop (suc i) s.sessions) ≡ 0 → open_count (drop i s'.sessions) ≡ 0))
          (close_at c i x s w)
  unfolding close_at close_session
  close_at-Balanced s i none at b = ensures (b, λ _. none-drop s.sessions i at)
  close_at-Balanced s i (some x) at b =
      bind (close_it s i x x.native at refl b)
        λ y w₁ b₁. ensures (b₁.0, set-drop s.sessions i x y.0 at b₁.1)
