-- ===== src/Ort/Calls/Options.antt =====
-- OrtSessionOptions and OrtRunOptions.
use onnxcraft.Common.{ℤ, ℕ, String, [], ◌∷◌}
use onnxcraft.Native.Ledger.{Kind, resource}
use onnxcraft.Native.Machine.{M, Reply}
use onnxcraft.Native.Calls.{asking, creating, releasing}
use onnxcraft.Ort.Enums.{GraphOptimizationLevel, ExecutionMode}
use onnxcraft.Ort.Api.{OrtApi}

module _ {S : Type 0} (api : OrtApi S) (a : ℕ) where
  unfoldable pub create_session_options : M S (Reply ℕ)
  create_session_options =
      creating Kind.session_options_handle (resource Kind.library_handle a ∷ [])
        api.create_session_options

  unfoldable pub release_session_options : ℕ → M S (Unit {0})
  release_session_options o =
      releasing Kind.session_options_handle o (resource Kind.library_handle a ∷ [])
        (api.release_session_options o)

  unfoldable pub set_intra_op_num_threads : (options : ℕ) → (threads : ℤ) → M S (Reply (Unit {0}))
  set_intra_op_num_threads o threads =
      asking (resource Kind.library_handle a ∷ resource Kind.session_options_handle o ∷ [])
        (api.set_intra_op_num_threads o threads)

  unfoldable pub set_inter_op_num_threads : (options : ℕ) → (threads : ℤ) → M S (Reply (Unit {0}))
  set_inter_op_num_threads o threads =
      asking (resource Kind.library_handle a ∷ resource Kind.session_options_handle o ∷ [])
        (api.set_inter_op_num_threads o threads)

  unfoldable pub set_session_execution_mode : ℕ → ExecutionMode → M S (Reply (Unit {0}))
  set_session_execution_mode o mode =
      asking (resource Kind.library_handle a ∷ resource Kind.session_options_handle o ∷ [])
        (api.set_session_execution_mode o mode)

  unfoldable pub set_session_graph_optimization_level :
      ℕ → GraphOptimizationLevel → M S (Reply (Unit {0}))
  set_session_graph_optimization_level o level =
      asking (resource Kind.library_handle a ∷ resource Kind.session_options_handle o ∷ [])
        (api.set_session_graph_optimization_level o level)

  unfoldable pub add_session_config_entry : ℕ → (key value : String) → M S (Reply (Unit {0}))
  add_session_config_entry o key value =
      asking (resource Kind.library_handle a ∷ resource Kind.session_options_handle o ∷ [])
        (api.add_session_config_entry o key value)

  unfoldable pub create_run_options : M S (Reply ℕ)
  create_run_options =
      creating Kind.run_options_handle (resource Kind.library_handle a ∷ []) api.create_run_options

  unfoldable pub run_options_set_terminate : ℕ → M S (Reply (Unit {0}))
  run_options_set_terminate o =
      asking (resource Kind.library_handle a ∷ resource Kind.run_options_handle o ∷ [])
        (api.run_options_set_terminate o)

  unfoldable pub release_run_options : ℕ → M S (Unit {0})
  release_run_options o =
      releasing Kind.run_options_handle o (resource Kind.library_handle a ∷ [])
        (api.release_run_options o)
