-- ===== src/Bridge/Wide/Correct.antt =====
-- What `wide_path` owns when it returns.
use onnxcraft.Common.{
  ℕ, Bool, true, false, String, List, [], ◌∷◌, ◌++◌, Option, none, some, ◌==◌, arith,
}
use onnxcraft.Native.Ledger.{Kind, Resource, resource, one_self}
use onnxcraft.Native.Machine.{World}
use onnxcraft.Native.Rules.{Ensures, ensures, bind, Holds, Same-refl, opt_owned}
use onnxcraft.Native.Calls.{reading-Holds, allocating-Holds, releasing-Holds}
use onnxcraft.Ort.Api.{Host, Windows}
use onnxcraft.Ort.Calls.{malloc, free, wide_length, multi_byte_to_wide_char}
use onnxcraft.Bridge.Wide.{keep_wide, fill_wide, make_wide, wide_path}

module _ {S : Type 0} (host : Host S) (os : Windows S) {base own : List Resource} where
  keep_wide-Holds :
      (p : ℕ) (converted : Bool) {w : World S}
      → Holds base (resource Kind.heap_block p ∷ own) w
      → Ensures
          (λ r w'. Holds base (opt_owned Kind.heap_block r ++ own) w')
          (keep_wide host p converted w)
  unfolding keep_wide free
  keep_wide-Holds p true h = ensures h
  keep_wide-Holds p false h =
      bind (releasing-Holds [] Kind.heap_block p own _ h tt (Same-refl _)) λ _ w₁ h₁. ensures h₁

  fill_wide-Holds :
      (path : String) (n : ℕ) (block : Option ℕ) {w : World S}
      → Holds base (opt_owned Kind.heap_block block ++ own) w
      → Ensures
          (λ r w'. Holds base (opt_owned Kind.heap_block r ++ own) w')
          (fill_wide host os path n block w)
  unfolding fill_wide multi_byte_to_wide_char
  fill_wide-Holds path n none h = ensures h
  fill_wide-Holds path n (some p) h =
      let buffer = resource Kind.heap_block p in
      bind (reading-Holds (buffer ∷ []) _ h (omega (arith, one_self buffer)))
        λ converted w₁ h₁. keep_wide-Holds p converted h₁

  make_wide-Holds :
      (path : String) (n : ℕ) (failed : Bool) {w : World S}
      → Holds base own w
      → Ensures
          (λ r w'. Holds base (opt_owned Kind.heap_block r ++ own) w')
          (make_wide host os path n failed w)
  unfolding make_wide malloc
  make_wide-Holds path n true h = ensures h
  make_wide-Holds path n false h =
      bind (allocating-Holds [] Kind.heap_block _ h tt)
        λ block w₁ h₁. fill_wide-Holds path n block h₁

  -- `wide_path` returns NULL and nothing is newly live, or it returns a block, which is all that is
  -- newly live, whatever `MultiByteToWideChar` and `malloc` answer.
  pub wide_path-Holds :
      (path : String) {w : World S}
      → Holds base own w
      → Ensures
          (λ r w'. Holds base (opt_owned Kind.heap_block r ++ own) w')
          (wide_path host os path w)
  unfolding wide_path wide_length
  wide_path-Holds path h =
      bind (reading-Holds [] _ h tt) λ n w₁ h₁. make_wide-Holds path n (n == 0) h₁
