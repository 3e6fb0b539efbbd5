-- ===== src/Go/Runtime/Options.antt =====
-- The loops of `load` over the configuration and the providers, and `addProvider`.
use text.Mathlib.Text.{◌==◌ as ◌≡?◌}
use onnxcraft.Common.{ℕ, ◌||◌, ◌&&◌, not, String, List, [], ◌∷◌, if◌then◌else◌}
use onnxcraft.Native.Machine.{M, pure, ◌>>=◌, ◌>>◌}
use onnxcraft.Bridge.Types.{OcRuntime}
use onnxcraft.Bridge.Interface.{Bridge}
use onnxcraft.Go.Result.{Result, good, bad}
use onnxcraft.Go.Cgo.{Cgo, c_string, c_free, contains_nul, is_empty}
use onnxcraft.Go.Runtime.Types.{GoError, Provider}
use onnxcraft.Go.Runtime.Errors.{native_error, on_good}

-- The checks of an entry of the configuration.
unfoldable pub check_config : (key value : String) → Result GoError (Unit {0})
check_config key value =
    if key ≡? "session.use_ort_model_bytes" || key ≡? "session.use_ort_model_bytes_for_initializers"
    then bad (GoError.incompatible_config key)
    else (if is_empty key || (contains_nul key || contains_nul value)
        then bad GoError.invalid_config
        else good tt)

-- The checks of an option of a provider.
unfoldable pub check_option : (key value : String) → Result GoError (Unit {0})
check_option key value =
    if (key ≡? "enable_cuda_graph" || key ≡? "trt_cuda_graph_enable") && not (value ≡? "0")
    then bad GoError.graph_capture
    else (if is_empty key || (contains_nul key || contains_nul value)
        then bad GoError.invalid_provider_option
        else good tt)

unfoldable pub check_name : String → Result GoError (Unit {0})
check_name name =
    if is_empty name || contains_nul name then bad GoError.invalid_provider else good tt

module _ {S : Type 0} (cgo : Cgo S) (c : Bridge S) (r : OcRuntime) (o : ℕ) where
  -- `oc_config` with copies of the key and the value.
  unfoldable pub set_config : (key value : String) → Unit {0} → M S (Result GoError (Unit {0}))
  unfolding c_string c_free native_error
  set_config key value _ = do
    k ← c_string cgo key
    v ← c_string cgo value
    reply ← c.oc_config r o key value
    err ← native_error c r reply
    c_free cgo k
    c_free cgo v
    pure err

  unfoldable pub add_config : List (String × String) → M S (Result GoError (Unit {0}))
  unfolding check_config set_config on_good
  add_config [] = pure (good tt)
  add_config (entry ∷ entries) = do
    err ← on_good (check_config entry.0 entry.1) (set_config entry.0 entry.1)
    on_good err λ _. add_config entries

  -- A round of the loop that copies the options, after its checks, and `rest` of the loop: the
  -- copies, and how it ends.
  unfoldable pub copy_checked :
      Result GoError (Unit {0})
      → String × String
      → M S (List (ℕ × ℕ) × Result GoError (Unit {0}))
      → M S (List (ℕ × ℕ) × Result GoError (Unit {0}))
  unfolding c_string
  copy_checked (bad e) entry rest = pure ([], bad e)
  copy_checked (good _) entry rest = do
    k ← c_string cgo entry.0
    v ← c_string cgo entry.1
    copies ← rest
    pure ((k, v) ∷ copies.0, copies.1)

  unfoldable pub copy_options :
      List (String × String) → M S (List (ℕ × ℕ) × Result GoError (Unit {0}))
  unfolding check_option copy_checked
  copy_options [] = pure ([], good tt)
  copy_options (entry ∷ entries) =
      let rest = copy_options entries in copy_checked (check_option entry.0 entry.1) entry rest

  -- The deferred loop over `keys` and `values`.
  unfoldable pub free_copies : List (ℕ × ℕ) → M S (Unit {0})
  unfolding c_free
  free_copies [] = pure tt
  free_copies (copy ∷ copies) = do c_free cgo copy.0; c_free cgo copy.1; free_copies copies

  unfoldable pub call_provider : Provider → Unit {0} → M S (Result GoError (Unit {0}))
  unfolding native_error
  call_provider provider _ = do
    reply ← c.oc_provider r o provider.name provider.options
    native_error c r reply

  unfoldable pub copy_provider : Provider → Unit {0} → M S (Result GoError (Unit {0}))
  unfolding c_string copy_options call_provider free_copies c_free on_good
  copy_provider provider _ = do
    name ← c_string cgo provider.name
    copies ← copy_options provider.options
    err ← on_good copies.1 (call_provider provider)
    free_copies copies.0
    c_free cgo name
    pure err

  unfoldable pub add_provider : Provider → M S (Result GoError (Unit {0}))
  unfolding check_name copy_provider on_good
  add_provider provider = on_good (check_name provider.name) (copy_provider provider)

  unfoldable pub add_providers : List Provider → M S (Result GoError (Unit {0}))
  unfolding add_provider on_good
  add_providers [] = pure (good tt)
  add_providers (provider ∷ providers) = do
    err ← add_provider provider
    on_good err λ _. add_providers providers
