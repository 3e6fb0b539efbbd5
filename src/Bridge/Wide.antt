-- ===== src/Bridge/Wide.antt =====
-- `wide_path` of bridge.c, which is there where `_WIN32` is defined.
pub mod Correct
use onnxcraft.Common.{ℕ, ◌*◌, Bool, true, false, String, Option, none, some, ◌==◌}
use onnxcraft.Native.Machine.{M, pure, ◌>>=◌, ◌>>◌}
use onnxcraft.Ort.Api.{Host, Windows}
use onnxcraft.Ort.Calls.{malloc, free, wide_length, multi_byte_to_wide_char}

module _ {S : Type 0} (host : Host S) where
  -- The buffer, once it is converted, or NULL.
  unfoldable pub keep_wide : (p : ℕ) → (converted : Bool) → M S (Option ℕ)
  unfolding free
  keep_wide p true = pure (some p)
  keep_wide p false = do free host p; pure none

  unfoldable pub fill_wide : Windows S → String → (n : ℕ) → (block : Option ℕ) → M S (Option ℕ)
  unfolding multi_byte_to_wide_char
  fill_wide os path n none = pure none
  fill_wide os path n (some p) = do
    converted ← multi_byte_to_wide_char os path p n
    keep_wide p converted

  -- `sizeof(wchar_t)` is 2.
  unfoldable pub make_wide : Windows S → String → (n : ℕ) → (failed : Bool) → M S (Option ℕ)
  unfolding malloc fill_wide
  make_wide os path n true = pure none
  make_wide os path n false = do block ← malloc host (n * 2); fill_wide os path n block

  unfoldable pub wide_path : Windows S → String → M S (Option ℕ)
  unfolding wide_length make_wide
  wide_path os path = do n ← wide_length os path; make_wide os path n (n == 0)
