-- ===== src/Go/Runtime/Owned/Options.antt =====
-- The loops over the configuration and the providers free every string that they copy.
use onnxcraft.Common.{ℕ, String, List, [], ◌∷◌, ◌++◌, arith}
use onnxcraft.Native.Ledger.{Kind, Resource, resource, count-append}
use onnxcraft.Native.Machine.{World, M}
use onnxcraft.Native.Rules.{Ensures, ensures, bind, Holds, Holds-Same, Same, Same-refl}
use onnxcraft.Native.Calls.{minting-Holds, releasing-Holds}
use onnxcraft.Ort.Enums.{OrtErrorCode}
use onnxcraft.Bridge.Interface.{Bridge}
use onnxcraft.Bridge.Interface.Laws.{Handle, the_runtime, Served, HasOptions, IsBridge}
use onnxcraft.Go.Result.{Result, good, bad}
use onnxcraft.Go.Cgo.{Cgo, c_string, c_free}
use onnxcraft.Go.Runtime.{
  GoError, Provider, check_config, check_option, check_name, set_config, add_config, copy_checked,
  copy_options, free_copies, call_provider, copy_provider, add_provider, add_providers,
}
use onnxcraft.Go.Runtime.Owned.Errors.{
  native_error-Settled, then_error, Settled-live, Settled-Holds, on_good-Holds,
}

-- The strings that a provider's options are copied to.
abbrev pub copies_owned : List (ℕ × ℕ) → List Resource
copies_owned [] = []
copies_owned (copy ∷ copies) =
    resource Kind.heap_block copy.0 ∷ resource Kind.heap_block copy.1 ∷ copies_owned copies

Same-copies :
    (k v : ℕ) (copies : List (ℕ × ℕ)) (own : List Resource)
    → Same
        (copies_owned copies ++ (resource Kind.heap_block v ∷ resource Kind.heap_block k ∷ own))
        (copies_owned ((k, v) ∷ copies) ++ own)
Same-copies k v copies own =
    let both = resource Kind.heap_block v ∷ resource Kind.heap_block k ∷ own in
    record {
      counts = λ q. omega (
        arith,
        count-append q (copies_owned copies) both,
        count-append q (copies_owned copies) own,
      );
    }

module _ {S : Type 0} (cgo : Cgo S) {base : List Resource} where
  pub c_string-Holds :
      (s : String) {own : List Resource} {w : World S}
      → Holds base own w
      → Ensures (λ p w'. Holds base (resource Kind.heap_block p ∷ own) w') (c_string cgo s w)
  unfolding c_string
  c_string-Holds s held = minting-Holds [] Kind.heap_block _ held tt

  pub c_free-Holds :
      (p : ℕ) (rest : List Resource) {own : List Resource} {w : World S}
      → Holds base own w
      → Same own (resource Kind.heap_block p ∷ rest)
      → Ensures (λ _ w'. Holds base rest w') (c_free cgo p w)
  unfolding c_free
  c_free-Holds p rest held same = releasing-Holds [] Kind.heap_block p rest _ held tt same

  free_copies-Holds :
      (c : Bridge S) (r : Handle) (o : ℕ) (copies : List (ℕ × ℕ)) (own : List Resource)
      {w : World S}
      → Holds base (copies_owned copies ++ own) w
      → Ensures (λ _ w'. Holds base own w') (free_copies cgo c (the_runtime r) o copies w)
  unfolding free_copies
  free_copies-Holds c r o [] own held = ensures held
  free_copies-Holds c r o (copy ∷ copies) own held =
      bind (c_free-Holds copy.0 _ held (Same-refl _)) λ _ w₁ held₁.
        bind (c_free-Holds copy.1 _ held₁ (Same-refl _))
          λ _ w₂ held₂. free_copies-Holds c r o copies own held₂

module _ {S : Type 0} (cgo : Cgo S) {c : Bridge S} {Code : OrtErrorCode → Type 0}
    (laws : IsBridge S c Code) (base : List Resource) (h : Handle) (o : ℕ) (served : Served base h)
    (has : HasOptions base o) where
  set_config-Holds :
      (key value : String) {own : List Resource} {w : World S}
      → Holds base own w
      → Ensures (λ _ w'. Holds base own w') (set_config cgo c (the_runtime h) o key value tt w)
  unfolding set_config
  set_config-Holds key value {own} held = bind (c_string-Holds cgo key held) λ k w₁ held₁.
      bind (c_string-Holds cgo value held₁) λ v w₂ held₂.
        then_error laws base h served _
          (laws.oc_config-Answered base h o key value _ served has held₂)
          λ err w₃ held₃.
            bind
              (c_free-Holds cgo k (resource Kind.heap_block v ∷ own) (Settled-live held₃)
                (record { counts = λ q. omega arith }))
              λ _ w₄ held₄.
                bind (c_free-Holds cgo v own held₄ (Same-refl _)) λ _ w₅ held₅. ensures held₅

  -- `load` sets the entries of the configuration with no leak: whatever the entries, and whether it
  -- goes on or gives up, the same is live after the loop as before.
  pub add_config-Holds :
      (entries : List (String × String)) {own : List Resource} {w : World S}
      → Holds base own w
      → Ensures (λ _ w'. Holds base own w') (add_config cgo c (the_runtime h) o entries w)
  unfolding add_config
  add_config-Holds [] held = ensures held
  add_config-Holds (entry ∷ entries) held =
      bind
        (on_good-Holds (check_config entry.0 entry.1) _ held
          λ _. set_config-Holds entry.0 entry.1 held)
        λ err w₁ held₁. on_good-Holds err _ held₁ λ _. add_config-Holds entries held₁

  copy_checked-Holds :
      (e : Result GoError (Unit {0})) (entry : String × String)
      (rest : M S (List (ℕ × ℕ) × Result GoError (Unit {0}))) (own : List Resource) {w : World S}
      → Holds base own w
      → ((own' : List Resource) (w' : World S)
          → Holds base own' w'
          → Ensures (λ r w''. Holds base (copies_owned r.0 ++ own') w'') (rest w'))
      → Ensures
          (λ r w'. Holds base (copies_owned r.0 ++ own) w')
          (copy_checked cgo c (the_runtime h) o e entry rest w)
  unfolding copy_checked
  copy_checked-Holds (bad e) entry rest own held go = ensures held
  copy_checked-Holds (good _) entry rest own held go =
      bind (c_string-Holds cgo entry.0 held) λ k w₁ held₁.
        bind (c_string-Holds cgo entry.1 held₁) λ v w₂ held₂.
          bind (go _ w₂ held₂)
            λ copies w₃ held₃. ensures (Holds-Same held₃ (Same-copies k v copies.0 own))

  copy_options-Holds :
      (entries : List (String × String)) (own : List Resource) {w : World S}
      → Holds base own w
      → Ensures
          (λ r w'. Holds base (copies_owned r.0 ++ own) w')
          (copy_options cgo c (the_runtime h) o entries w)
  unfolding copy_options
  copy_options-Holds [] own held = ensures held
  copy_options-Holds (entry ∷ entries) own held =
      copy_checked-Holds (check_option entry.0 entry.1) entry _ own held
        λ own' w' held'. copy_options-Holds entries own' held'

  call_provider-Holds :
      (provider : Provider) {own : List Resource} {w : World S}
      → Holds base own w
      → Ensures (λ _ w'. Holds base own w') (call_provider cgo c (the_runtime h) o provider tt w)
  unfolding call_provider
  call_provider-Holds provider held = Settled-Holds (
      native_error-Settled laws base h served
        (laws.oc_provider-Answered base h o provider.name provider.options _ served has held))

  copy_provider-Holds :
      (provider : Provider) {own : List Resource} {w : World S}
      → Holds base own w
      → Ensures (λ _ w'. Holds base own w') (copy_provider cgo c (the_runtime h) o provider tt w)
  unfolding copy_provider
  copy_provider-Holds provider {own} held =
      bind (c_string-Holds cgo provider.name held) λ name w₁ held₁.
        bind (copy_options-Holds provider.options _ held₁) λ copies w₂ held₂.
          bind (on_good-Holds copies.1 _ held₂ λ _. call_provider-Holds provider held₂)
            λ err w₃ held₃. bind (free_copies-Holds cgo c h o copies.0 _ held₃) λ _ w₄ held₄.
              bind (c_free-Holds cgo name own held₄ (Same-refl _)) λ _ w₅ held₅. ensures held₅

  -- `addProvider` over all the providers leaks nothing: whatever their names and options, and
  -- whether it goes on or gives up, the same is live after the loop as before.
  pub add_providers-Holds :
      (providers : List Provider) {own : List Resource} {w : World S}
      → Holds base own w
      → Ensures (λ _ w'. Holds base own w') (add_providers cgo c (the_runtime h) o providers w)
  unfolding add_providers add_provider
  add_providers-Holds [] held = ensures held
  add_providers-Holds (provider ∷ providers) held =
      bind (on_good-Holds (check_name provider.name) _ held λ _. copy_provider-Holds provider held)
        λ err w₁ held₁. on_good-Holds err _ held₁ λ _. add_providers-Holds providers held₁
