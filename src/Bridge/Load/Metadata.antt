-- ===== src/Bridge/Load/Metadata.antt =====
-- The part of `oc_load` that allocates the ports and the names and fills them, and the test of the
-- counts before it.
use onnxcraft.Common.{
  ℕ, zero, suc, ◌+◌, ◌*◌, ◌/◌, ◌%◌, ◌^◌, ◌≤◌, ◌<◌, ◌≡◌, ◌↔◌, refl, sym, subst, true, false, List,
  [], ◌∷◌, ◌++◌, Option, none, some, String, arith, length, length-replicate, replicate,
}
use onnxcraft.Native.Ledger.{Kind, Resource, resource, count}
use onnxcraft.Native.Machine.{World}
use onnxcraft.Native.Rules.{
  Ensures, ensures, bind, Holds, Holds-Same, Same-refl, Same-front, opt_owned,
}
use onnxcraft.Native.Calls.{minting-Holds, allocating-Holds}
use onnxcraft.Native.Flow.{continue_with, Ends, Ends-mono, then_plain, then_guard}
use onnxcraft.Ort.Api.{OrtApi, Host}
use onnxcraft.Bridge.Types.{OcPort, OcSession}
use onnxcraft.Bridge.Session.Owned.{ports_owned}
use onnxcraft.Bridge.Load.Body.{
  LoadLocals, zero_port, zeroed, sizeof_port, bad_counts, calloc_array, use_arrays, complete_load,
}
use onnxcraft.Bridge.Load.Answered.{PortAnswered, Each, Each-nil}
use onnxcraft.Bridge.Load.Progress.{
  Filled, nil, load_owned, loading, Loadable, loadable, midway, AllLoaded, all_loaded,
}
use onnxcraft.Bridge.Load.Loop.{load_ports-Ends}

-- The counts that `oc_load` accepts: for `size_t` counts, the test passes exactly where there is an
-- output and the size in bytes of an array with a port for each input and output, their sum not
-- reduced, does not wrap.
pub bad_counts_lem :
    (inputs outputs : ℕ)
    → inputs < 2 ^ 64
    → outputs < 2 ^ 64
    → (bad_counts inputs outputs ((inputs + outputs) % 2 ^ 64) ≡ false)
      ↔ ((1 ≤ outputs) × ((inputs + outputs) * sizeof_port < 2 ^ 64))
bad_counts_lem inputs outputs hi ho = (λ e. ground arith, λ h. ground arith)

-- A block of `calloc` has as many entries as it was asked for.
calloc_array-Holds :
    {S A : Type 0} {base own : List Resource} (host : Host S) (x : A) (entry n : ℕ) {w : World S}
    → n * entry / entry ≡ n
    → Holds base own w
    → Ensures
        (λ r w'.
          (block : Option ℕ) × (r ≡ (block, zeroed x n block))
          × Holds base (opt_owned Kind.heap_block block ++ own) w')
        (calloc_array host x entry n entry w)
unfolding calloc_array
calloc_array-Holds host x entry n exact held =
    bind (allocating-Holds [] Kind.heap_block _ held tt)
      λ block w₁ held₁. ensures (block, rw exact refl, held₁)

module _ (p l env memory allocator : ℕ) (version : String) where
  -- The body has come to its end.
  pub data Complete {S : Type 0} (base : List Resource) (Told : OcSession → Type 0) (u : Unit {0})
      : LoadLocals → World S → Type 0 where
    complete :
        {self h inputs outputs pb nb : ℕ} {ps : List OcPort} {ns : List (Option ℕ)} {w : World S}
        → Filled ps ns
        → length ps ≡ inputs + outputs
        → 1 ≤ outputs
        → (inputs + outputs) * sizeof_port < 2 ^ 64
        → Told (
            (midway p l env memory allocator version self h inputs outputs pb nb ps ns
              none).session)
        → Holds base
            (load_owned
              (midway p l env memory allocator version self h inputs outputs pb nb ps ns none))
            w
        → Complete base Told u
            (midway p l env memory allocator version self h inputs outputs pb nb ps ns none)
            w

  ports_owned-zeroed :
      (n : ℕ) (rest : List Resource) → ports_owned (replicate n zero_port) rest ≡ rest
  ports_owned-zeroed zero rest = refl
  ports_owned-zeroed (suc n) rest = ports_owned-zeroed n rest

  module _ {S : Type 0} (api : OrtApi S) (host : Host S) {base : List Resource}
      (served : 1 ≤ count (resource Kind.library_handle l) base) where
    module _ (self h inputs outputs n : ℕ) (sum : (inputs + outputs) % 2 ^ 64 ≡ n)
        (exact : n ≡ inputs + outputs) (some_output : 1 ≤ outputs)
        (fits : (inputs + outputs) * sizeof_port < 2 ^ 64) (Told : OcSession → Type 0)
        (tell : (pb nb : ℕ) (ps : List OcPort) (ns : List (Option ℕ))
          → Each (PortAnswered api h allocator inputs) ps
          → Told (
              (midway p l env memory allocator version self h inputs outputs pb nb ps ns
                none).session)) where
      AllLoaded-Complete :
          {pb nb : ℕ} {u : Unit {0}} {v : LoadLocals} {w : World S}
          → AllLoaded p l env memory allocator version self h inputs outputs pb nb base
              ((inputs + outputs) % 2 ^ 64)
              (PortAnswered api h allocator inputs)
              u
              v
              w
          → Complete base Told u v w
      AllLoaded-Complete (all_loaded {ps} {ns} f d e held) =
          complete f (omega arith) some_output fits (tell _ _ ps ns d) held

      use_arrays-Ends :
          (ports names : Option ℕ) {w : World S}
          → Holds base
              (opt_owned Kind.heap_block names
                ++ (opt_owned Kind.heap_block ports
                    ++ (resource Kind.session_handle h ∷ resource Kind.heap_block self ∷ [])))
              w
          → Ensures
              (Ends base load_owned
                (Loadable p l env memory allocator version self)
                (Complete base Told))
              (use_arrays api host l env allocator h inputs n ports names
                (loading p l env memory allocator version self
                  (some h)
                  inputs
                  outputs
                  ports
                  (zeroed zero_port n ports)
                  names
                  (zeroed none n names)
                  none)
                w)
      unfolding use_arrays
      use_arrays-Ends none names held =
          let handle = resource Kind.session_handle h in
          let block = resource Kind.heap_block self in
          let names_block = opt_owned Kind.heap_block names in
          then_guard true _ _ _ _ (loadable refl)
            (minting-Holds _ Kind.status_handle _
              (Holds-Same held (Same-front handle names_block (block ∷ []) (Same-refl _)))
              (omega arith))
            λ e. cc
      use_arrays-Ends (some pb) none {w} held =
          let blocks = resource Kind.heap_block pb ∷ resource Kind.heap_block self ∷ [] in
          let handle = resource Kind.session_handle h in
          let held' : Holds base (handle ∷ ports_owned (replicate n zero_port) blocks) w =
            subst (λ rs. Holds base (handle ∷ rs) w) (sym (ports_owned-zeroed n blocks))
              (Holds-Same {ys = handle ∷ blocks} held (record { counts = λ q. omega arith })) in
          then_guard true _ _ _ _ (loadable (omega (arith, length-replicate n zero_port)))
            (minting-Holds _ Kind.status_handle _ held' (omega arith)) λ e. cc
      use_arrays-Ends (some pb) (some nb) {w} held =
          let block = resource Kind.heap_block self in
          let blocks = resource Kind.heap_block pb ∷ resource Kind.heap_block nb ∷ block ∷ [] in
          let held' : Holds base
              (resource Kind.session_handle h ∷ ports_owned (replicate n zero_port) blocks) w =
            subst (λ rs. Holds base (resource Kind.session_handle h ∷ rs) w)
              (sym (ports_owned-zeroed n blocks))
              (Holds-Same {ys = resource Kind.session_handle h ∷ blocks} held
                (record { counts = λ q. omega arith })) in
          then_guard false _ _ _ _ (loadable (omega (arith, length-replicate n zero_port)))
            (minting-Holds _ Kind.status_handle _ held' (omega arith))
            λ _.
              Ends-mono
                (load_ports-Ends p l env memory allocator version self h inputs outputs pb nb api
                  host served n [] [] 0 nil (Each-nil _) refl refl (omega arith) held')
                λ u v w q. AllLoaded-Complete q

      pub complete_load-Ends :
          {w : World S}
          → Holds base (resource Kind.session_handle h ∷ resource Kind.heap_block self ∷ []) w
          → Ensures
              (Ends base load_owned
                (Loadable p l env memory allocator version self)
                (Complete base Told))
              (complete_load api host l env allocator h inputs n
                (loading p l env memory allocator version self
                  (some h)
                  inputs
                  outputs
                  none
                  []
                  none
                  []
                  none)
                w)
      unfolding complete_load continue_with
      complete_load-Ends held =
          then_plain _ _ (calloc_array-Holds host zero_port sizeof_port n (omega arith) held)
            λ x w₁ q.
              let (ports, same, held₁) = q in
              rw same (
                then_plain _ _ (calloc_array-Holds host none 8 n (omega arith) held₁) λ y w₂ q'.
                  let (names, same', held₂) = q' in rw same' (use_arrays-Ends ports names held₂))
