-- ===== src/Bridge/Load/Opening.antt =====
-- What the opened model owns: the session or the status, and no path.
use onnxcraft.Common.{ℕ, ◌≤◌, String, List, [], ◌∷◌, ◌++◌, Option, none, some, arith}
use onnxcraft.Native.Ledger.{Kind, Resource, resource, count, one_self}
use onnxcraft.Native.Machine.{World, Run, done, and_then, Reply}
use onnxcraft.Native.Rules.{
  Ensures, ensures, bind, Holds, Answered, succeeded, failed, new_handle, opt_owned, uses-Holds,
}
use onnxcraft.Native.Calls.{creating-Answered, minting-Holds, releasing-Holds}
use onnxcraft.Ort.Api.{OrtApi, Host, Platform, posix, windows}
use onnxcraft.Ort.Calls.{free}
use onnxcraft.Bridge.Wide.Correct.{wide_path-Holds}
use onnxcraft.Bridge.Load.Model.{open_wide, open_path, open_model}

module _ {S : Type 0} (api : OrtApi S) (host : Host S) (l env : ℕ) {base : List Resource}
    (served : 1 ≤ count (resource Kind.library_handle l) base) where
  -- `free(wide);` after the call.
  free_after :
      (p : ℕ) {own : List Resource} {r : Run S (Reply ℕ)}
      → Ensures
          (Answered base (new_handle Kind.session_handle) (resource Kind.heap_block p ∷ own))
          r
      → Ensures
          (Answered base (new_handle Kind.session_handle) own)
          (and_then r λ session w₁. and_then (free host p w₁) λ _ w₂. done session w₂)
  unfolding free
  free_after p {own} (ensures (succeeded {a = h} held)) =
      bind
        (releasing-Holds [] Kind.heap_block p (resource Kind.session_handle h ∷ own) _ held tt
          (record { counts = λ q. omega arith }))
        λ _ w₁ h₁. ensures (succeeded h₁)
  free_after p {own} (ensures (failed {st} held)) =
      bind
        (releasing-Holds [] Kind.heap_block p (resource Kind.status_handle st ∷ own) _ held tt
          (record { counts = λ q. omega arith }))
        λ _ w₁ h₁. ensures (failed h₁)

  open_wide-Answered :
      (path : String) (o : ℕ) (wide : Option ℕ) {own : List Resource} {w : World S}
      → 1 ≤ count (resource Kind.env_handle env) base
      → 1 ≤ count (resource Kind.session_options_handle o) base
      → Holds base (opt_owned Kind.heap_block wide ++ own) w
      → Ensures
          (Answered base (new_handle Kind.session_handle) own)
          (open_wide api host l env path o wide w)
  unfolding open_wide
  open_wide-Answered path o none e s held =
      bind (minting-Holds _ Kind.status_handle _ held (omega arith)) λ st w₁ h₁. ensures (failed h₁)
  open_wide-Answered path o (some p) {own} e s held =
      let buffer = resource Kind.heap_block p in
      bind (uses-Holds Kind.heap_block p held (omega (arith, one_self buffer)))
        λ _ w₁ h₁. free_after p (creating-Answered _ Kind.session_handle _ h₁ (omega arith))

  open_path-Answered :
      (platform : Platform S) (path : String) (o : ℕ) {own : List Resource} {w : World S}
      → 1 ≤ count (resource Kind.env_handle env) base
      → 1 ≤ count (resource Kind.session_options_handle o) base
      → Holds base own w
      → Ensures
          (Answered base (new_handle Kind.session_handle) own)
          (open_path api host l env platform path o w)
  unfolding open_path
  open_path-Answered (posix os) path o e s held = creating-Answered _ _ _ held (omega arith)
  open_path-Answered (windows os) path o e s held =
      bind (wide_path-Holds host os path held) λ wide w₁ h₁. open_wide-Answered path o wide e s h₁

  pub open_model-Answered :
      (path : Option String) (model size o : ℕ) {own : List Resource} {w : World S}
      → 1 ≤ count (resource Kind.env_handle env) base
      → 1 ≤ count (resource Kind.session_options_handle o) base
      → Holds base own w
      → Ensures
          (Answered base (new_handle Kind.session_handle) own)
          (open_model api host l env path model size o w)
  unfolding open_model
  open_model-Answered none model size o e s held = creating-Answered _ _ _ held (omega arith)
  open_model-Answered (some path) model size o e s held =
      open_path-Answered host.platform path o e s held
