-- ===== src/Bridge/Open/Correct.antt =====
-- `oc_open` leaves behind either a runtime that owns all that was acquired, or nothing but the
-- error text.
use onnxcraft.Common.{
  ℕ, refl, inl, Bool, true, false, List, [], ◌∷◌, ◌++◌, Option, none, some, String, arith,
}
use onnxcraft.Native.Ledger.{Kind, Resource, resource, one_self, count-append}
use onnxcraft.Native.Machine.{World}
use onnxcraft.Native.Rules.{
  Ensures, ensures, bind, Holds, Holds-Same, Same-refl, Same-front, opt_owned,
}
use onnxcraft.Native.Calls.{reading-Holds, allocating-Holds, releasing-Holds}
use onnxcraft.Ort.Api.{OrtApi, Host, Platform, posix, windows, Posix, Windows}
use onnxcraft.Bridge.Wide.Correct.{wide_path-Holds}
use onnxcraft.Ort.Calls.{
  calloc, dlopen, dlerror, dlsym, free, get_proc_address, load_library_ex_w, get_last_error,
}
use onnxcraft.Bridge.Open.Steps.{
  use_library, use_exported, find_export, use_wide, load_library, use_block, oc_open,
}
use onnxcraft.Bridge.Open.Owned.{runtime_owned, bare_runtime}
use onnxcraft.Bridge.Open.Ends.{copy_text-Holds, fail_open-Opened, use_base-Opened}
pub use onnxcraft.Bridge.Open.Ends.{
  ready_runtime, text_owned, IsRefusal, CodeOf, Opened, opened, refused,
}

module _ {S : Type 0} (api : OrtApi S) (host : Host S) {base : List Resource} where
  use_library-Opened :
      (os : Posix S) (p : ℕ) (l : Option ℕ) {w : World S}
      → Holds base (opt_owned Kind.library_handle l ++ runtime_owned (bare_runtime p none) []) w
      → Ensures (Opened (CodeOf api) base) (use_library api host os (bare_runtime p none) l w)
  unfolding use_library dlerror dlsym
  use_library-Opened os p none h =
      bind (reading-Holds [] _ h tt) λ message w₁ h₁. fail_open-Opened api host p none message h₁
  use_library-Opened os p (some l) h =
      let lib = resource Kind.library_handle l in
      bind (reading-Holds (lib ∷ []) _ h (omega (arith, one_self lib)))
        λ exported w₁ h₁. use_base-Opened api host p l exported h₁

  use_exported-Opened :
      (os : Windows S) (p : ℕ) (l : Option ℕ) (exported : Bool) {w : World S}
      → Holds base (runtime_owned (bare_runtime p l) []) w
      → Ensures
          (Opened (CodeOf api) base)
          (use_exported api host os (bare_runtime p l) l exported w)
  unfolding use_exported get_last_error
  use_exported-Opened os p none exported h =
      bind (reading-Holds [] _ h tt) λ code w₁ h₁. fail_open-Opened api host p none _ h₁
  use_exported-Opened os p (some l) false h =
      bind (reading-Holds [] _ h tt) λ code w₁ h₁. fail_open-Opened api host p (some l) _ h₁
  use_exported-Opened os p (some l) true h = use_base-Opened api host p l true h

  find_export-Holds :
      (os : Windows S) (p : ℕ) (l : Option ℕ) {w : World S}
      → Holds base (runtime_owned (bare_runtime p l) []) w
      → Ensures
          (λ _ w'. Holds base (runtime_owned (bare_runtime p l) []) w')
          (find_export api host os l w)
  unfolding find_export get_proc_address
  find_export-Holds os p none h = ensures h
  find_export-Holds os p (some l) h =
      let lib = resource Kind.library_handle l in
      reading-Holds (lib ∷ []) _ h (omega (arith, one_self lib))

  use_wide-Opened :
      (os : Windows S) (p : ℕ) (wide : Option ℕ) {w : World S}
      → Holds base (opt_owned Kind.heap_block wide ++ runtime_owned (bare_runtime p none) []) w
      → Ensures (Opened (CodeOf api) base) (use_wide api host os (bare_runtime p none) wide w)
  unfolding use_wide load_library_ex_w free
  use_wide-Opened os p none h = fail_open-Opened api host p none _ h
  use_wide-Opened os p (some b) h =
      let buffer = resource Kind.heap_block b in
      bind (allocating-Holds (buffer ∷ []) Kind.library_handle _ h (omega (arith, one_self buffer)))
        λ l w₁ h₁.
          bind
            (releasing-Holds [] Kind.heap_block b (runtime_owned (bare_runtime p l) []) _ h₁ tt (
              Same-front buffer (opt_owned Kind.library_handle l) (resource Kind.heap_block p ∷ [])
                (Same-refl _)))
            λ _ w₂ h₂.
              bind (find_export-Holds os p l h₂)
                λ exported w₃ h₃. use_exported-Opened os p l exported h₃

  load_library-Opened :
      (platform : Platform S) (path : String) (p : ℕ) {w : World S}
      → Holds base (runtime_owned (bare_runtime p none) []) w
      → Ensures
          (Opened (CodeOf api) base)
          (load_library api host platform path (bare_runtime p none) w)
  unfolding load_library dlopen
  load_library-Opened (posix os) path p h =
      bind (allocating-Holds [] Kind.library_handle _ h tt) λ l w₁ h₁. use_library-Opened os p l h₁
  load_library-Opened (windows os) path p h =
      bind (wide_path-Holds host os path h) λ wide w₁ h₁. use_wide-Opened os p wide h₁

  use_block-Opened :
      (path : String) (p : Option ℕ) {w : World S}
      → Holds base (opt_owned Kind.heap_block p ++ []) w
      → Ensures (Opened (CodeOf api) base) (use_block api host path p w)
  unfolding use_block
  use_block-Opened path none h = bind (copy_text-Holds api host _ h) λ e w₁ h₁.
      ensures
        (refused (inl refl) (Holds-Same h₁ (record { counts = λ q. omega (arith, count-append) })))
  use_block-Opened path (some p) h = load_library-Opened host.platform path p h

  pub oc_open-Opened :
      (path : String) {w : World S}
      → Holds base [] w
      → Ensures (Opened (CodeOf api) base) (oc_open api host path w)
  unfolding oc_open calloc
  oc_open-Opened path h =
      bind (allocating-Holds [] Kind.heap_block _ h tt) λ p w₁ h₁. use_block-Opened path p h₁
