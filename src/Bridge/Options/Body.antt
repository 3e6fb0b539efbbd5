-- ===== src/Bridge/Options/Body.antt =====
-- The body of `oc_options_new`, with its `fail` label. Its one local that owns anything is `o`.
use onnxcraft.Common.{
  ℕ, ℤ, pos, negsuc, Bool, false, Option, none, some, List, [], ◌∷◌, ◌==◌, if◌then◌else◌, get_elem?,
}
use onnxcraft.Native.Machine.{deref}
use onnxcraft.Native.Flow.{Flow, ◌>>=◌, ◌>>◌, go_on, check, plain, assign}
use onnxcraft.Ort.Enums.{ExecutionMode, GraphOptimizationLevel}
use onnxcraft.Ort.Api.{OrtApi}
use onnxcraft.Ort.Calls.{
  create_session_options, set_intra_op_num_threads, set_inter_op_num_threads,
  set_session_execution_mode, set_session_graph_optimization_level,
}
use onnxcraft.Bridge.Types.{OcOptions}

-- The array `levels`.
abbrev pub levels : List GraphOptimizationLevel
levels =
    GraphOptimizationLevel.enable_all ∷ GraphOptimizationLevel.disable_all
    ∷ GraphOptimizationLevel.enable_basic ∷ GraphOptimizationLevel.enable_extended ∷ []

-- An `int` is false where it is 0.
abbrev pub is_false : ℤ → Bool
is_false (pos n) = n == 0
is_false (negsuc n) = false

-- `config->parallel ? ORT_PARALLEL : ORT_SEQUENTIAL`
abbrev pub execution_mode : OcOptions → ExecutionMode
execution_mode config =
    if is_false config.parallel then ExecutionMode.sequential else ExecutionMode.parallel

-- `levels[i]`, where the index is one of the array.
abbrev pub level_at : ℤ → Option GraphOptimizationLevel
level_at (pos n) = get_elem? levels n
level_at (negsuc n) = none

module _ {S : Type 0} (api : OrtApi S) where
  unfoldable pub options_body : (a : ℕ) → OcOptions → Flow S (Option ℕ) ℕ
  unfolding create_session_options set_intra_op_num_threads set_inter_op_num_threads
      set_session_execution_mode set_session_graph_optimization_level
  options_body a config = do
    o ← check (create_session_options api a)
    assign λ _. some o
    check (set_intra_op_num_threads api a o config.intra_threads)
    check (set_inter_op_num_threads api a o config.inter_threads)
    check (set_session_execution_mode api a o (execution_mode config))
    level ← plain (deref (level_at config.optimization))
    check (set_session_graph_optimization_level api a o level)
    go_on o
