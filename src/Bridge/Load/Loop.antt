-- ===== src/Bridge/Load/Loop.antt =====
-- The loop of `oc_load` over the inputs and outputs.
use mathlib.Core.List.{append-nil, append_assoc}
use onnxcraft.Common.{
  ℕ, zero, suc, ◌+◌, ◌%◌, ◌^◌, ◌≤◌, ◌≡◌, sym, subst, subst₂, List, [], ◌∷◌, ◌++◌, Option, none,
  String, arith, length, length-append, length-replicate, replicate, get_elem?-append_mid,
}
use onnxcraft.Native.Ledger.{
  Kind, Resource, resource, count, one_self, count-append, count-append_ge,
}
use onnxcraft.Native.Machine.{World, Run, done, and_then, deref}
use onnxcraft.Native.Rules.{
  Ensures, ensures, Holds, Holds-frame, Holds-unframe, Same-refl, Same-cons,
}
use onnxcraft.Native.Flow.{Exit, next, goto_fail, Ends, goes_on, fails, then_flow}
use onnxcraft.Ort.Api.{OrtApi, Host}
use onnxcraft.Bridge.Types.{OcPort}
use onnxcraft.Bridge.Load.Port.{PortLocals, load_port}
use onnxcraft.Bridge.Load.Body.{LoadLocals, zero_port, put_back, focus, load_ports}
use onnxcraft.Bridge.Load.Answered.{PortAnswered, Each, Each-snoc}
use onnxcraft.Bridge.Load.Round.{round_owned, RoundDone, round_done, load_port-Ends}
use onnxcraft.Bridge.Load.Progress.{
  Filled, Filled-snoc, load_owned, Loadable, loadable, midway, RoundAt, round_at, AllLoaded,
  all_loaded, put-midway, Same-round,
}

module _ (p l env memory allocator : ℕ) (version : String) (self h inputs outputs pb nb : ℕ) where
  -- What is told of each port.
  abbrev Told : {S : Type 0} → OrtApi S → ℕ → OcPort → Type 0
  Told api = PortAnswered api h allocator inputs

  abbrev at : List OcPort → List (Option ℕ) → Option ℕ → LoadLocals
  at = midway p l env memory allocator version self h inputs outputs pb nb

  abbrev Round :
      {S : Type 0}
      → List Resource
      → (xs ys : List OcPort) → (ns ms : List (Option ℕ)) → (OcPort → Type 0)
      → Exit LoadLocals (Unit {0})
      → World S
      → Type 0
  Round base xs ys ns ms Told =
      Ends base load_owned (Loadable p l env memory allocator version self)
        (RoundAt p l env memory allocator version self h inputs outputs pb nb base xs ys ns ms Told)

  abbrev Loop :
      {S : Type 0}
      → List Resource
      → (ℕ → OcPort → Type 0)
      → Exit LoadLocals (Unit {0})
      → World S
      → Type 0
  Loop base Told = Ends base load_owned (Loadable p l env memory allocator version self) (
      AllLoaded p l env memory allocator version self h inputs outputs pb nb base
        ((inputs + outputs) % 2 ^ 64) Told)

  module _ {S : Type 0} (api : OrtApi S) (host : Host S) {base : List Resource}
      (served : 1 ≤ count (resource Kind.library_handle l) base) where
    module _ (xs ys : List OcPort) (ns ms : List (Option ℕ)) (i : ℕ) (ex : length xs ≡ i)
        (en : length ns ≡ i)
        (sized : length xs + suc (length ys) ≡ (inputs + outputs) % 2 ^ 64) where
      put_back-Ends :
          {r : Run S (Exit PortLocals (Unit {0}))}
          → Ensures
              (Ends
                (load_owned (at (xs ++ (zero_port ∷ ys)) (ns ++ (none ∷ ms)) none) ++ base)
                round_owned
                (λ _. Unit)
                (RoundDone
                  (load_owned (at (xs ++ (zero_port ∷ ys)) (ns ++ (none ∷ ms)) none) ++ base)
                  (Told api i)))
              r
          → Ensures
              (Round base xs ys ns ms (Told api i))
              (and_then r (put_back i (at (xs ++ (zero_port ∷ ys)) (ns ++ (none ∷ ms)) none)))
      unfolding put_back
      put_back-Ends (ensures (goes_on (round_done {p = x} {alias} {w} loaded says held))) =
          let v : PortLocals = record { port = x; alias = alias; info = none } in
          subst (λ t. Ensures (Round base xs ys ns ms (Told api i)) (done (next tt t) w))
            (sym (
              put-midway p l env memory allocator version self h inputs outputs pb nb xs ys ns ms i
                v ex en))
            (ensures (
              goes_on (
                round_at loaded says (
                  Holds-unframe _ held (
                    Same-round p l env memory allocator version self h inputs outputs pb nb xs ys ns
                      ms v)))))
      put_back-Ends (ensures (fails {st} {l = v} {w} _ held)) =
          subst (λ t. Ensures (Round base xs ys ns ms (Told api i)) (done (goto_fail st t) w))
            (sym (
              put-midway p l env memory allocator version self h inputs outputs pb nb xs ys ns ms i
                v ex en))
            (ensures (
              fails (loadable (omega (arith, length-append xs (v.port ∷ ys)))) (
                Holds-unframe _ held (
                  Same-cons _ (
                    Same-round p l env memory allocator version self h inputs outputs pb nb xs ys ns
                      ms v)))))

      focus-Ends :
          {w : World S}
          → Holds base (load_owned (at (xs ++ (zero_port ∷ ys)) (ns ++ (none ∷ ms)) none)) w
          → Ensures (Round base xs ys ns ms (Told api i)) (
              focus i
                (load_port api host l h allocator inputs i)
                (at (xs ++ (zero_port ∷ ys)) (ns ++ (none ∷ ms)) none)
                w)
      unfolding focus deref
      focus-Ends held =
          let before = load_owned (at (xs ++ (zero_port ∷ ys)) (ns ++ (none ∷ ms)) none) in
          let lib = resource Kind.library_handle l in
          let handle = resource Kind.session_handle h in
          rw (get_elem?-append_mid xs zero_port ys i ex, get_elem?-append_mid ns none ms i en)
            (put_back-Ends (
              load_port-Ends api host l h allocator (count-append_ge lib before base served)
                (omega (arith, count-append handle before base, one_self handle)) inputs i
                (Holds-frame before held (Same-refl []))))

    resume :
        (k : ℕ) (xs : List OcPort) (ns : List (Option ℕ)) (i : ℕ) {u : Unit {0}} {v : LoadLocals}
        {w : World S}
        → Filled xs ns
        → Each (Told api) xs
        → length xs ≡ i
        → length ns ≡ i
        → ((xs' : List OcPort) (ns' : List (Option ℕ)) (w' : World S)
            → Filled xs' ns'
            → Each (Told api) xs'
            → length xs' ≡ i + 1
            → length ns' ≡ i + 1
            → Holds base
                (load_owned (at (xs' ++ replicate k zero_port) (ns' ++ replicate k none) none))
                w'
            → Ensures (Loop base (Told api)) (
                load_ports api host l env allocator h inputs k
                  (i + 1)
                  (at (xs' ++ replicate k zero_port) (ns' ++ replicate k none) none)
                  w'))
        → RoundAt p l env memory allocator version self h inputs outputs pb nb base xs
            (replicate k zero_port)
            ns
            (replicate k none)
            (Told api i)
            u
            v
            w
        → Ensures
            (Loop base (Told api))
            (load_ports api host l env allocator h inputs k (i + 1) v w)
    resume k xs ns i f d ex en rest (round_at {x} {alias} {w} loaded says held) =
        subst₂
          (λ ps ms.
            Holds base (load_owned (at ps ms none)) w
            → Ensures (Loop base (Told api))
                (load_ports api host l env allocator h inputs k (i + 1) (at ps ms none) w))
          (append_assoc xs (x ∷ []) (replicate k zero_port))
          (append_assoc ns (alias ∷ []) (replicate k none))
          (rest (xs ++ (x ∷ [])) (ns ++ (alias ∷ [])) w (Filled-snoc f loaded)
            (Each-snoc (Told api) xs x d (subst (λ j. Told api j x) (sym ex) says))
            (omega (arith, length-append xs (x ∷ [])))
            (omega (arith, length-append ns (alias ∷ []))))
          held

    pub load_ports-Ends :
        (k : ℕ) (xs : List OcPort) (ns : List (Option ℕ)) (i : ℕ) {w : World S}
        → Filled xs ns
        → Each (Told api) xs
        → length xs ≡ i
        → length ns ≡ i
        → i + k ≡ (inputs + outputs) % 2 ^ 64
        → Holds base (load_owned (at (xs ++ replicate k zero_port) (ns ++ replicate k none) none)) w
        → Ensures (Loop base (Told api)) (
            load_ports api host l env allocator h inputs k i
              (at (xs ++ replicate k zero_port) (ns ++ replicate k none) none)
              w)
    unfolding load_ports
    load_ports-Ends zero xs ns i {w} f d ex en total held =
        subst₂
          (λ ps ms.
            Filled ps ms
            → Each (Told api) ps
            → length ps ≡ (inputs + outputs) % 2 ^ 64
            → Holds base (load_owned (at ps ms none)) w
            → Ensures (Loop base (Told api)) (done (next tt (at ps ms none)) w))
          (sym (append-nil xs)) (sym (append-nil ns))
          (λ f' d' e' held'. ensures (goes_on (all_loaded f' d' e' held')))
          (subst₂ Filled (sym (append-nil xs)) (sym (append-nil ns)) f)
          (subst (Each (Told api)) (sym (append-nil xs)) d) (omega (arith, length-append xs []))
          held
    load_ports-Ends (suc k) xs ns i f d ex en total held =
        then_flow
          (focus-Ends xs (replicate k zero_port) ns (replicate k none) i ex en
            (omega (arith, length-replicate k zero_port)) held)
          λ u v w q.
            resume k xs ns i f d ex en
              (λ xs' ns' w' f' d' ex' en' held'.
                load_ports-Ends k xs' ns' (i + 1) f' d' ex' en' (omega arith) held')
              q
