-- ===== src/Bridge/Open/Owned.antt =====
-- What a runtime owns, and `oc_close`, which gives all of it back.
use onnxcraft.Common.{
  ℕ, ◌≤◌, ◌≡◌, refl, subst, List, [], ◌∷◌, ◌++◌, Option, none, some, String, arith,
}
use mathlib.Core.List.{append_assoc}
use onnxcraft.Native.Ledger.{
  Kind, Resource, resource, count, one_self, count-append, count-append_ge,
}
use onnxcraft.Native.Machine.{World, deref, when_some}
use onnxcraft.Native.Rules.{
  Ensures, bind, Holds, Same, Same-append_comm, opt_owned, when_some-Holds,
}
use onnxcraft.Native.Calls.{releasing-Holds}
use onnxcraft.Ort.Api.{OrtApi, Host, Platform, posix, windows}
use onnxcraft.Ort.Calls.{release_memory_info, release_env, free, dlclose, free_library}
use onnxcraft.Bridge.Types.{OcRuntime}
use onnxcraft.Bridge.Open.Close.{close_library, oc_close}

-- `rest` is what else is owned.
abbrev pub runtime_owned : OcRuntime → List Resource → List Resource
runtime_owned r rest =
    opt_owned Kind.memory_info_handle r.memory
    ++ (opt_owned Kind.env_handle r.env
        ++ (opt_owned Kind.library_handle r.library ++ (resource Kind.heap_block r.self ∷ rest)))

pub runtime_owned-append :
    (r : OcRuntime) (rest : List Resource) → runtime_owned r [] ++ rest ≡ runtime_owned r rest
runtime_owned-append r rest = simp append_assoc

-- What stood before is moved behind.
pub Same-runtime_owned :
    (r : OcRuntime) (xs : List Resource) → Same (xs ++ runtime_owned r []) (runtime_owned r xs)
Same-runtime_owned r xs =
    subst (Same (xs ++ runtime_owned r [])) (runtime_owned-append r xs)
      (Same-append_comm xs (runtime_owned r []))

-- A runtime that is being opened, before `GetApi` has answered.
abbrev pub bare_runtime : (p : ℕ) → Option ℕ → OcRuntime
bare_runtime p l = record {
  self = p;
  library = l;
  api = none;
  env = none;
  memory = none;
  allocator = none;
  version = none;
}

-- A runtime whose table of functions lies in its open library.
abbrev pub serving_runtime :
    (p l : ℕ) → (env memory allocator : Option ℕ) → Option String → OcRuntime
serving_runtime p l env memory allocator version = record {
  self = p;
  library = some l;
  api = some l;
  env = env;
  memory = memory;
  allocator = allocator;
  version = version;
}

pub library_live :
    (p l : ℕ) (env memory allocator : Option ℕ) (version : Option String) (rest : List Resource)
    → 1
      ≤ count
          (resource Kind.library_handle l)
          (runtime_owned (serving_runtime p l env memory allocator version) rest)
library_live p l env memory allocator version rest =
    let lib = resource Kind.library_handle l in
    let served = lib ∷ resource Kind.heap_block p ∷ rest in
    count-append_ge lib (opt_owned Kind.memory_info_handle memory)
      (opt_owned Kind.env_handle env ++ served)
      (count-append_ge lib (opt_owned Kind.env_handle env) served (omega (arith, one_self lib)))

close_library-Holds :
    {S : Type 0} (platform : Platform S) (l : ℕ) {base rest own : List Resource} {w : World S}
    → Holds base own w
    → Same own (resource Kind.library_handle l ∷ rest)
    → Ensures (λ _ w'. Holds base rest w') (close_library platform l w)
unfolding close_library dlclose free_library
close_library-Holds (posix os) l h s = releasing-Holds [] Kind.library_handle l _ _ h tt s
close_library-Holds (windows os) l h s = releasing-Holds [] Kind.library_handle l _ _ h tt s

module _ {S : Type 0} (api : OrtApi S) (host : Host S) {base : List Resource} where
  pub close_bare :
      (p : ℕ) (l : Option ℕ) (rest : List Resource) {own : List Resource} {w : World S}
      → Holds base own w
      → Same own (runtime_owned (bare_runtime p l) rest)
      → Ensures (λ _ w'. Holds base rest w') (oc_close api host (some (bare_runtime p l)) w)
  unfolding oc_close free when_some
  close_bare p l rest h s =
      bind
        (when_some-Holds Kind.library_handle l _ (resource Kind.heap_block p ∷ rest) h s
          λ a w₁ h₁. close_library-Holds host.platform a h₁ (record { counts = λ q. refl }))
        λ _ w₂ h₂. releasing-Holds [] Kind.heap_block p rest _ h₂ tt (record { counts = λ q. refl })

  -- `oc_close` releases what the runtime owns, each once, the library after the handles that it
  -- serves, and touches nothing else.
  pub close_serving :
      (p l : ℕ) (env memory allocator : Option ℕ) (version : Option String) (rest : List Resource)
      {own : List Resource} {w : World S}
      → Holds base own w
      → Same own (runtime_owned (serving_runtime p l env memory allocator version) rest)
      → Ensures
          (λ _ w'. Holds base rest w')
          (oc_close api host (some (serving_runtime p l env memory allocator version)) w)
  unfolding oc_close release_memory_info release_env free deref
  close_serving p l env memory allocator version rest h s =
      let lib = resource Kind.library_handle l in
      let rest₃ = resource Kind.heap_block p ∷ rest in
      let rest₂ = lib ∷ rest₃ in
      let rest₁ = opt_owned Kind.env_handle env ++ rest₂ in
      bind
        (when_some-Holds Kind.memory_info_handle memory _ rest₁ h s λ a w₁ h₁.
          releasing-Holds (lib ∷ []) Kind.memory_info_handle a rest₁ _ h₁
            (omega (arith, count-append lib (opt_owned Kind.env_handle env) rest₂, one_self lib))
            (record { counts = λ q. refl }))
        λ _ w₁ h₁.
          bind
            (when_some-Holds Kind.env_handle env _ rest₂ h₁ (record { counts = λ q. refl })
              λ a w₂ h₂.
                releasing-Holds (lib ∷ []) Kind.env_handle a rest₂ _ h₂
                  (omega (arith, one_self lib)) (record { counts = λ q. refl }))
            λ _ w₂ h₂.
              bind
                (when_some-Holds Kind.library_handle (some l) _ rest₃ h₂
                  (record { counts = λ q. refl })
                  λ a w₃ h₃. close_library-Holds host.platform a h₃ (record { counts = λ q. refl }))
                λ _ w₃ h₃.
                  releasing-Holds [] Kind.heap_block p rest _ h₃ tt (record { counts = λ q. refl })
