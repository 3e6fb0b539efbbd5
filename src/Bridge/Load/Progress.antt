-- ===== src/Bridge/Load/Progress.antt =====
-- The variables of `oc_load` while it goes over the inputs and outputs, and what they own.
use onnxcraft.Common.{
  ℕ, ◌+◌, ◌≡◌, refl, List, [], ◌∷◌, ◌++◌, Option, none, some, String, arith, length, set-append_mid,
}
use onnxcraft.Native.Ledger.{Kind, Resource, resource, count, count-append}
use onnxcraft.Native.Machine.{World}
use onnxcraft.Native.Rules.{Holds, Same, opt_owned}
use onnxcraft.Bridge.Types.{OcPort}
use onnxcraft.Bridge.Open.Correct.{ready_runtime}
use onnxcraft.Bridge.Session.{port_count}
use onnxcraft.Bridge.Session.Owned.{port_owned, ports_owned, session_owned, Sized}
use onnxcraft.Bridge.Load.Port.{PortLocals}
use onnxcraft.Bridge.Load.Body.{LoadLocals, zero_port, put}
use onnxcraft.Bridge.Load.Answered.{Each}
use onnxcraft.Bridge.Load.Round.{round_owned, PortLoaded}

-- Entry by entry, the ports are loaded and `names` repeats their names.
pub data Filled : List OcPort → List (Option ℕ) → Type 0 where
  nil : Filled [] []
  cons :
      {p : OcPort} {alias : Option ℕ} {ps : List OcPort} {ns : List (Option ℕ)}
      → PortLoaded p alias
      → Filled ps ns
      → Filled (p ∷ ps) (alias ∷ ns)

pub Filled-snoc :
    {p : OcPort} {alias : Option ℕ} {ps : List OcPort} {ns : List (Option ℕ)}
    → Filled ps ns
    → PortLoaded p alias
    → Filled (ps ++ (p ∷ [])) (ns ++ (alias ∷ []))
Filled-snoc nil l = cons l nil
Filled-snoc (cons k f) l = cons k (Filled-snoc f l)

pub Filled-length : {ps : List OcPort} {ns : List (Option ℕ)} → Filled ps ns → length ns ≡ length ps
Filled-length nil = refl
Filled-length (cons k f) = omega (arith, Filled-length f)

-- What the variables of `oc_load` own.
abbrev pub load_owned : LoadLocals → List Resource
load_owned l = opt_owned Kind.type_info_handle l.info ++ session_owned l.session []

count-ports_owned :
    (q : Resource) (xs : List OcPort) (p : OcPort) (ys : List OcPort) (rest : List Resource)
    → count q (ports_owned (xs ++ (p ∷ ys)) rest)
      ≡ count q (port_owned p []) + count q (ports_owned (xs ++ (zero_port ∷ ys)) rest)
count-ports_owned q [] p ys rest = omega (
  arith,
  count-append q (opt_owned Kind.name_block p.name)
      (opt_owned Kind.heap_block p.shape ++ ports_owned ys rest),
  count-append q (opt_owned Kind.heap_block p.shape) (ports_owned ys rest),
  count-append q (opt_owned Kind.name_block p.name) (opt_owned Kind.heap_block p.shape ++ []),
  count-append q (opt_owned Kind.heap_block p.shape) [],
)
count-ports_owned q (x ∷ xs) p ys rest =
    let a = ports_owned (xs ++ (p ∷ ys)) rest in
    let b = ports_owned (xs ++ (zero_port ∷ ys)) rest in
    let name = opt_owned Kind.name_block x.name in
    let shape = opt_owned Kind.heap_block x.shape in
    omega (
      arith,
      count-ports_owned q xs p ys rest,
      count-append q name (shape ++ a),
      count-append q shape a,
      count-append q name (shape ++ b),
      count-append q shape b,
    )

module _ (p l env memory allocator : ℕ) (version : String) (self : ℕ) where
  -- The variables of `oc_load` on a ready runtime.
  abbrev pub loading :
      Option ℕ
      → (inputs outputs : ℕ) → Option ℕ
      → List OcPort
      → Option ℕ
      → List (Option ℕ)
      → Option ℕ
      → LoadLocals
  loading handle inputs outputs ports ps names ns info = record {
    session = record {
      self = self;
      runtime = ready_runtime p l env memory allocator version;
      handle = handle;
      inputs = inputs;
      outputs = outputs;
      ports = ports;
      port_array = ps;
      names = names;
      name_array = ns;
    };
    info = info;
  }

  -- What `oc_session_free` needs of the variables.
  pub data Loadable : LoadLocals → Type 0 where
    loadable :
        {handle : Option ℕ} {inputs outputs : ℕ} {ports : Option ℕ} {ps : List OcPort}
        {names : Option ℕ} {ns : List (Option ℕ)} {info : Option ℕ}
        → Sized ports ps
            (port_count ((loading handle inputs outputs ports ps names ns info).session))
        → Loadable (loading handle inputs outputs ports ps names ns info)

  module _ (h inputs outputs pb nb : ℕ) where
    abbrev pub midway : List OcPort → List (Option ℕ) → Option ℕ → LoadLocals
    midway ps ns info = loading (some h) inputs outputs (some pb) ps (some nb) ns info

    -- A round has loaded the port behind `xs`.
    pub data RoundAt {S : Type 0} (base : List Resource) (xs ys : List OcPort)
        (ns ms : List (Option ℕ)) (Told : OcPort → Type 0) (u : Unit {0})
        : LoadLocals → World S → Type 0 where
      round_at :
          {x : OcPort} {alias : Option ℕ} {w : World S}
          → PortLoaded x alias
          → Told x
          → Holds base (load_owned (midway (xs ++ (x ∷ ys)) (ns ++ (alias ∷ ms)) none)) w
          → RoundAt base xs ys ns ms Told u (midway (xs ++ (x ∷ ys)) (ns ++ (alias ∷ ms)) none) w

    -- All rounds are done.
    pub data AllLoaded {S : Type 0} (base : List Resource) (n : ℕ) (Told : ℕ → OcPort → Type 0)
        (u : Unit {0}) : LoadLocals → World S → Type 0 where
      all_loaded :
          {ps : List OcPort} {ns : List (Option ℕ)} {w : World S}
          → Filled ps ns
          → Each Told ps
          → length ps ≡ n
          → Holds base (load_owned (midway ps ns none)) w
          → AllLoaded base n Told u (midway ps ns none) w

    pub put-midway :
        (xs ys : List OcPort) (ns ms : List (Option ℕ)) (i : ℕ) (v : PortLocals)
        → length xs ≡ i
        → length ns ≡ i
        → put i (midway (xs ++ (zero_port ∷ ys)) (ns ++ (none ∷ ms)) none) v
          ≡ midway (xs ++ (v.port ∷ ys)) (ns ++ (v.alias ∷ ms)) v.info
    put-midway xs ys ns ms i v e e' =
        rw (set-append_mid xs zero_port v.port ys i e, set-append_mid ns none v.alias ms i e')

    -- What a round has acquired, next to what was owned before it.
    pub Same-round :
        (xs ys : List OcPort) (ns ms : List (Option ℕ)) (v : PortLocals)
        → Same
            (round_owned v ++ load_owned (midway (xs ++ (zero_port ∷ ys)) (ns ++ (none ∷ ms)) none))
            (load_owned (midway (xs ++ (v.port ∷ ys)) (ns ++ (v.alias ∷ ms)) v.info))
    Same-round xs ys ns ms v =
        let blocks =
          resource Kind.heap_block pb
          ∷ resource Kind.heap_block nb
          ∷ resource Kind.heap_block self
          ∷ [] in
        let before = load_owned (midway (xs ++ (zero_port ∷ ys)) (ns ++ (none ∷ ms)) none) in
        let info = opt_owned Kind.type_info_handle v.info in
        record {
          counts = λ q. omega (
            arith,
            count-append q (round_owned v) before,
            count-append q info (port_owned v.port []),
            count-append q info
                (resource Kind.session_handle h ∷ ports_owned (xs ++ (v.port ∷ ys)) blocks),
            count-ports_owned q xs v.port ys blocks,
          );
        }
