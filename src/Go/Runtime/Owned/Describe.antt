-- ===== src/Go/Runtime/Owned/Describe.antt =====
-- `load` of runtime.go leaves behind a loaded session that it has described, or nothing.
use native.Mathlib.Nat.{mod-eq_of_lt}
use onnxcraft.Common.{
  ℕ, ℤ, zero, suc, ◌+◌, ◌%◌, ◌^◌, ◌≤◌, ◌≡◌, refl, sym, subst, length-take, length-drop, inl, inr,
  ◌⊎◌, List, [], ◌∷◌, ◌++◌, Option, some, arith, length, ◌==◌, Bool-cases,
}
use onnxcraft.Native.Ledger.{Kind, Resource, resource, count, count-append, one_self}
use onnxcraft.Native.Machine.{World, Run, done, and_then, deref}
use onnxcraft.Native.Rules.{Ensures, ensures, bind, Holds, Same-refl, opt_owned}
use onnxcraft.Native.Calls.{reading-answer}
use onnxcraft.Bridge.Types.{OcPort, OcSession}
use onnxcraft.Bridge.Session.{port_count}
use onnxcraft.Bridge.Session.Owned.{port_owned, ports_owned, session_owned}
use onnxcraft.Bridge.Run.Arrays.{append-take-drop}
use onnxcraft.Bridge.Load.Round.{HasDims}
use onnxcraft.Bridge.Load.Progress.{Filled, nil, cons}
use onnxcraft.Bridge.Load.Correct.{loaded}
use onnxcraft.Ort.Enums.{OrtErrorCode, element_data_type_value}
use onnxcraft.Bridge.Interface.{Bridge}
use onnxcraft.Bridge.Interface.Laws.{Handle, LoadedOn, Served, IsBridge}
use onnxcraft.Go.Result.{Result, good, bad}
use onnxcraft.Go.Cgo.{Cgo, name_text}
use onnxcraft.Go.Tensor.{data_type_size}
use onnxcraft.Go.Runtime.{
  GoError, SessionOptions, TensorInfo, Session, on_good, data_type_of, port_shape, slice,
  describe_ports, describe_session, session_of,
}

-- The shape of a port of that rank: its dimensions, of which there are none for a scalar.
abbrev pub IsShape : (rank : ℕ) → Option (List ℤ) → List ℤ → Type 0
IsShape rank dims shape = (length shape ≡ rank) × ((rank ≡ 0) ⊎ (dims ≡ some shape))

-- A `TensorInfo` describes a port: it has the text at the port's name, the port's element type, which
-- is one that the package supports, and its dimensions.
pub record Describes {S : Type 0} (cgo : Cgo S) (p : OcPort) (info : TensorInfo) : Type 0 where
  pub block : ℕ
  pub is_named : p.name ≡ some block
  pub has_name : (s : S) × (info.name ≡ (cgo.go_string block s).0)
  pub has_type : info.dtype ≡ element_data_type_value p.type % 2 ^ 8
  pub supported : 1 ≤ data_type_size info.dtype
  pub has_shape : IsShape p.rank p.dims info.shape

-- Entry by entry, in the same order.
pub data DescribesAll {S : Type 0} (cgo : Cgo S) : List OcPort → List TensorInfo → Type 0 where
  describes_none : DescribesAll cgo [] []
  describes_more :
      {p : OcPort} {info : TensorInfo} {ps : List OcPort} {infos : List TensorInfo}
      → Describes cgo p info
      → DescribesAll cgo ps infos
      → DescribesAll cgo (p ∷ ps) (info ∷ infos)

-- The name of every port is live among `own`, and its dimensions are written.
abbrev Readable : List Resource → List OcPort → Type 0
Readable own [] = Unit
Readable own (p ∷ ps) =
    ((n : ℕ) × (p.name ≡ some n) × (1 ≤ count (resource Kind.name_block n) own))
    × ((ds : List ℤ) × (port_shape p.rank p.dims ≡ some ds) × IsShape p.rank p.dims ds)
    × Readable own ps

Readable-mono :
    (own own' : List Resource) (ps : List OcPort)
    → ((q : Resource) → count q own ≤ count q own')
    → Readable own ps
    → Readable own' ps
Readable-mono own own' [] more r = tt
Readable-mono own own' (p ∷ ps) more r =
    let n = r.0.0 in
    (
      (n, r.0.1, omega (arith, more (resource Kind.name_block n), r.0.2)),
      r.1,
      Readable-mono own own' ps more r.2,
    )

slice-length : {A : Type 0} (xs : List A) → slice (length xs) xs ≡ some xs
unfolding slice
slice-length [] = refl
slice-length (x ∷ xs) = rw (slice-length xs) refl

port_shape-some :
    (shape : Option ℕ) (dims : Option (List ℤ)) (rank : ℕ)
    → HasDims shape dims rank
    → (ds : List ℤ) × (port_shape rank dims ≡ some ds) × IsShape rank dims ds
unfolding port_shape
port_shape-some shape dims zero _ = ([], refl, (refl, inl refl))
port_shape-some shape dims (suc n) (inl h) = absurd (omega (arith, h.0))
port_shape-some shape dims (suc n) (inr h) =
    (h.1, rw (h.3, sym h.4) (slice-length h.1), (h.4, inr h.3))

Filled-Readable :
    {ps : List OcPort} {ns : List (Option ℕ)} (rest : List Resource)
    → Filled ps ns
    → Readable (ports_owned ps rest) ps
Filled-Readable rest nil = tt
Filled-Readable rest (cons {p} {ps = ps} l f) =
    let n = l.named.0 in
    let after = ports_owned ps rest in
    let shape = opt_owned Kind.heap_block p.shape in
    let live : 1 ≤ count (resource Kind.name_block n) (port_owned p after) =
      rw l.named.1 (omega (arith, one_self (resource Kind.name_block n))) in
    (
      (n, l.named.1, live),
      port_shape-some p.shape p.dims p.rank l.dimensioned,
      Readable-mono after (port_owned p after) ps
          (λ q. omega (
            arith,
            count-append q (opt_owned Kind.name_block p.name) (shape ++ after),
            count-append q shape after,
          ))
          (Filled-Readable rest f),
    )

-- How the loop over the ports ends.
data Described {S : Type 0} (cgo : Cgo S) (base : List Resource) (whole : OcSession) (n : ℕ)
    (ps : List OcPort) : Result GoError (List TensorInfo) → World S → Type 0 where
  described :
      {infos : List TensorInfo} {w : World S}
      → length infos ≡ n
      → DescribesAll cgo ps infos
      → Holds base (session_owned whole []) w
      → Described cgo base whole n ps (good infos) w
  undescribed :
      {e : GoError} {w : World S} → Holds base [] w → Described cgo base whole n ps (bad e) w

-- How `load` ends: a session that is loaded, with a description of each of its inputs and outputs,
-- or an error and nothing.
pub data SessionLoaded {S : Type 0} (cgo : Cgo S) (base : List Resource) (h : Handle)
    : Result GoError Session → World S → Type 0 where
  session_loaded :
      {s : Session} {ptr : OcSession} {w : World S}
      → s.native ≡ some ptr
      → LoadedOn h ptr
      → length s.inputs ≡ ptr.inputs
      → length s.outputs ≡ ptr.outputs
      → DescribesAll cgo ptr.port_array (s.inputs ++ s.outputs)
      → Holds base (session_owned ptr []) w
      → SessionLoaded cgo base h (good s) w
  not_loaded : {e : GoError} {w : World S} → Holds base [] w → SessionLoaded cgo base h (bad e) w

module _ {S : Type 0} (cgo : Cgo S) {c : Bridge S} {Code : OrtErrorCode → Type 0}
    (laws : IsBridge S c Code) (base : List Resource) (h : Handle) (served : Served base h) where
  describe_more :
      (whole : OcSession) (n : ℕ) (p : OcPort) (ps : List OcPort) (info : TensorInfo)
      {r : Run S (Result GoError (List TensorInfo))}
      → Describes cgo p info
      → Ensures (Described cgo base whole n ps) r
      → Ensures
          (Described cgo base whole (suc n) (p ∷ ps))
          (and_then r λ infos. on_good infos λ is w. done (good (info ∷ is)) w)
  unfolding on_good
  describe_more whole n p ps info this (ensures (described e all held)) =
      ensures (described (omega arith) (describes_more this all) held)
  describe_more whole n p ps info this (ensures (undescribed held)) = ensures (undescribed held)

  describe_ports-Described :
      (whole : OcSession) (n : ℕ) (ps : List OcPort) {w : World S}
      → LoadedOn h whole
      → length ps ≡ n
      → Readable (session_owned whole []) ps
      → Holds base (session_owned whole []) w
      → Ensures (Described cgo base whole n ps) (describe_ports cgo c whole n ps w)
  unfolding describe_ports name_text deref
  describe_ports-Described whole zero [] is e readable held =
      ensures (described refl describes_none held)
  describe_ports-Described whole zero (p ∷ ps) is e readable held = absurd (omega arith)
  describe_ports-Described whole (suc n) [] is e readable held = absurd (omega arith)
  describe_ports-Described whole (suc n) (p ∷ ps) is e readable held = simp readable.0.1 (
      bind (reading-answer _ (cgo.go_string readable.0.0) held (omega (arith, readable.0.2)))
        λ name w₁ read. elim (Bool-cases (data_type_size (data_type_of p) == 0)) [
          | inl t ↦ rw t (
              bind (laws.oc_session_free-Holds base h whole [] _ served is read.1 (Same-refl _))
                λ _ w₂ held₂. ensures (undescribed held₂))
          | inr t ↦
              rw (t, readable.1.1)
                (describe_more whole n p ps _
                  (record {
                    block = readable.0.0;
                    is_named = readable.0.1;
                    has_name = read.0;
                    has_type = refl;
                    supported = ground arith;
                    has_shape = readable.1.2;
                  })
                  (describe_ports-Described whole n ps is (omega arith) readable.2 read.1))
        ])

-- What is known of the ports of a loaded session.
ports_of-Loaded :
    (h : Handle) (ptr : OcSession)
    → LoadedOn h ptr
    → (length ptr.port_array ≡ ptr.inputs + ptr.outputs)
      × (port_count ptr ≡ ptr.inputs + ptr.outputs)
      × Readable (session_owned ptr []) ptr.port_array
ports_of-Loaded h ptr
      (loaded {self} {h = handle} {inputs} {outputs} {pb} {nb} {ps} {ns} f e o fits) =
    let blocks =
      resource Kind.heap_block pb
      ∷ resource Kind.heap_block nb
      ∷ resource Kind.heap_block self
      ∷ [] in
    (
      e,
      mod-eq_of_lt (omega (arith, fits)),
      Readable-mono (ports_owned ps blocks)
          (resource Kind.session_handle handle ∷ ports_owned ps blocks) ps (λ q. omega arith)
          (Filled-Readable blocks f),
    )

module _ {S : Type 0} (cgo : Cgo S) {c : Bridge S} {Code : OrtErrorCode → Type 0}
    (laws : IsBridge S c Code) (base : List Resource) (h : Handle) (served : Served base h) where
  session_of-SessionLoaded :
      (o : SessionOptions) (ptr : OcSession) {r : Run S (Result GoError (List TensorInfo))}
      → LoadedOn h ptr
      → Ensures (Described cgo base ptr (ptr.inputs + ptr.outputs) ptr.port_array) r
      → Ensures
          (SessionLoaded cgo base h)
          (and_then r λ info. on_good info λ is w. done (good (session_of cgo c o ptr is)) w)
  unfolding on_good
  session_of-SessionLoaded o ptr is (ensures (undescribed held)) = ensures (not_loaded held)
  session_of-SessionLoaded o ptr is (ensures (described {infos} e all held)) = ensures (
      session_loaded refl is (length-take ptr.inputs infos (omega arith))
        (omega (arith, length-drop ptr.inputs infos (omega arith)))
        (subst (DescribesAll cgo ptr.port_array) (sym (append-take-drop ptr.inputs infos)) all)
        held)

  pub describe_session-SessionLoaded :
      (o : SessionOptions) (ptr : OcSession) {w : World S}
      → LoadedOn h ptr
      → Holds base (session_owned ptr []) w
      → Ensures (SessionLoaded cgo base h) (describe_session cgo c o ptr w)
  unfolding describe_session
  describe_session-SessionLoaded o ptr {w} is held =
      let known = ports_of-Loaded h ptr is in
      session_of-SessionLoaded o ptr is (
        subst
          (λ n.
            Ensures (Described cgo base ptr n ptr.port_array)
              (describe_ports cgo c ptr (port_count ptr) ptr.port_array w))
          known.1
          (describe_ports-Described cgo laws base h served ptr (port_count ptr) ptr.port_array is
            (omega (arith, known.0, known.1)) known.2 held))
