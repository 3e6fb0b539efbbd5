-- ===== src/Bridge/Session/Owned.antt =====
-- What a session owns, and `oc_session_free`, which gives all of it back.
use mathlib.Core.List.{append_assoc}
use onnxcraft.Common.{
  ℕ, zero, suc, ◌≤◌, ◌≡◌, refl, subst, List, [], ◌∷◌, ◌++◌, Option, none, some, String, arith,
  length,
}
use onnxcraft.Native.Ledger.{Kind, Resource, resource, count}
use onnxcraft.Native.Machine.{World, deref, when_some}
use onnxcraft.Native.Rules.{
  Ensures, ensures, bind, Holds, Holds-Same, Same, Same-refl, Same-append_comm, opt_owned,
  when_some-Holds,
}
use onnxcraft.Native.Calls.{releasing-Holds}
use onnxcraft.Ort.Api.{OrtApi, Host}
use onnxcraft.Ort.Calls.{release_session, allocator_free, free}
use onnxcraft.Bridge.Types.{OcPort, OcSession}
use onnxcraft.Bridge.Open.Correct.{ready_runtime}
use onnxcraft.Bridge.Session.{port_count, free_ports, oc_session_free}

-- `rest` is what else is owned.
abbrev pub port_owned : OcPort → List Resource → List Resource
port_owned p rest = opt_owned Kind.name_block p.name ++ (opt_owned Kind.heap_block p.shape ++ rest)

abbrev pub ports_owned : List OcPort → List Resource → List Resource
ports_owned [] rest = rest
ports_owned (p ∷ ps) rest = port_owned p (ports_owned ps rest)

-- The blocks of the session itself.
abbrev pub blocks_owned : OcSession → List Resource → List Resource
blocks_owned s rest =
    opt_owned Kind.heap_block s.ports
    ++ (opt_owned Kind.heap_block s.names ++ (resource Kind.heap_block s.self ∷ rest))

abbrev pub session_owned : OcSession → List Resource → List Resource
session_owned s rest =
    opt_owned Kind.session_handle s.handle ++ ports_owned s.port_array (blocks_owned s rest)

ports_owned-append :
    (ps : List OcPort) (rest xs : List Resource)
    → ports_owned ps rest ++ xs ≡ ports_owned ps (rest ++ xs)
ports_owned-append [] rest xs = refl
ports_owned-append (p ∷ ps) rest xs = simp (append_assoc, ports_owned-append ps rest xs)

pub session_owned-append :
    (s : OcSession) (rest : List Resource) → session_owned s [] ++ rest ≡ session_owned s rest
session_owned-append s rest = simp (append_assoc, ports_owned-append)

-- What stood before is moved behind.
pub Same-session_owned :
    (s : OcSession) (xs : List Resource) → Same (xs ++ session_owned s []) (session_owned s xs)
Same-session_owned s xs =
    subst (Same (xs ++ session_owned s [])) (session_owned-append s xs)
      (Same-append_comm xs (session_owned s []))

-- The block at `ports` has as many entries as the model has inputs and outputs.
abbrev pub Sized : Option ℕ → List OcPort → ℕ → Type 0
Sized none ps n = ps ≡ []
Sized (some b) ps n = length ps ≡ n

module _ {S : Type 0} (api : OrtApi S) (host : Host S) {base : List Resource}
    (p l env memory allocator : ℕ) (version : String)
    (served : 1 ≤ count (resource Kind.library_handle l) base) where
  free_ports-Holds :
      (k : ℕ) (ps : List OcPort) (rest : List Resource) {own : List Resource} {w : World S}
      → length ps ≡ k
      → Holds base own w
      → Same own (ports_owned ps rest)
      → Ensures
          (λ _ w'. Holds base rest w')
          (free_ports api host l (ready_runtime p l env memory allocator version) k ps w)
  unfolding free_ports deref allocator_free free
  free_ports-Holds zero [] rest e h s = ensures (Holds-Same h s)
  free_ports-Holds zero (x ∷ ps) rest e h s = absurd (omega arith)
  free_ports-Holds (suc k) [] rest e h s = absurd (omega arith)
  free_ports-Holds (suc k) (x ∷ ps) rest e h s =
      let after = ports_owned ps rest in
      bind
        (when_some-Holds Kind.name_block x.name _ (opt_owned Kind.heap_block x.shape ++ after) h s
          λ a w₁ h₁. releasing-Holds _ Kind.name_block a _ _ h₁ (omega arith) (Same-refl _))
        λ _ w₁ h₁.
          bind
            (when_some-Holds Kind.heap_block x.shape _ after h₁ (Same-refl _)
              λ a w₂ h₂. releasing-Holds [] Kind.heap_block a _ _ h₂ tt (Same-refl _))
            λ _ w₂ h₂. free_ports-Holds k ps rest (omega arith) h₂ (Same-refl _)

  free_array-Holds :
      (n : ℕ) (ports : Option ℕ) (ps : List OcPort) (rest : List Resource) {own : List Resource}
      {w : World S}
      → Sized ports ps n
      → Holds base own w
      → Same own (ports_owned ps rest)
      → Ensures
          (λ _ w'. Holds base rest w')
          (when_some ports
            (λ _. free_ports api host l (ready_runtime p l env memory allocator version) n ps)
            w)
  unfolding when_some
  free_array-Holds n none ps rest {own} e h s =
      ensures (Holds-Same h (subst (λ xs. Same own (ports_owned xs rest)) e s))
  free_array-Holds n (some b) ps rest e h s = free_ports-Holds n ps rest e h s

  -- `oc_session_free` on a session of a ready runtime, complete or not, releases what the session
  -- owns, each once, and touches nothing else.
  pub oc_session_free-Holds :
      (self : ℕ) (handle : Option ℕ) (inputs outputs : ℕ) (ports : Option ℕ) (ps : List OcPort)
      (names : Option ℕ) (ns : List (Option ℕ)) (rest : List Resource) {own : List Resource}
      {w : World S}
      → let s : OcSession = record {
        self = self;
        runtime = ready_runtime p l env memory allocator version;
        handle = handle;
        inputs = inputs;
        outputs = outputs;
        ports = ports;
        port_array = ps;
        names = names;
        name_array = ns;
      } in
        Sized ports ps (port_count s)
        → Holds base own w
        → Same own (session_owned s rest)
        → Ensures (λ _ w'. Holds base rest w') (oc_session_free api host (some s) w)
  unfolding oc_session_free deref release_session free
  oc_session_free-Holds self handle inputs outputs ports ps names ns rest sized h s =
      let self_block = resource Kind.heap_block self ∷ rest in
      let after_ports = opt_owned Kind.heap_block names ++ self_block in
      let blocks = opt_owned Kind.heap_block ports ++ after_ports in
      bind
        (when_some-Holds Kind.session_handle handle _ (ports_owned ps blocks) h s
          λ a w₁ h₁. releasing-Holds _ Kind.session_handle a _ _ h₁ (omega arith) (Same-refl _))
        λ _ w₁ h₁. bind (free_array-Holds _ ports ps blocks sized h₁ (Same-refl _)) λ _ w₂ h₂.
          bind
            (when_some-Holds Kind.heap_block ports _ after_ports h₂ (Same-refl _)
              λ a w₃ h₃. releasing-Holds [] Kind.heap_block a _ _ h₃ tt (Same-refl _))
            λ _ w₃ h₃.
              bind
                (when_some-Holds Kind.heap_block names _ self_block h₃ (Same-refl _)
                  λ a w₄ h₄. releasing-Holds [] Kind.heap_block a _ _ h₄ tt (Same-refl _))
                λ _ w₄ h₄. releasing-Holds [] Kind.heap_block self rest _ h₄ tt (Same-refl _)
