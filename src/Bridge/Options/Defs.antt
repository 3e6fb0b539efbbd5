-- ===== src/Bridge/Options/Defs.antt =====
-- The short functions of bridge.c on session options, run options and statuses.
use onnxcraft.Common.{ℕ, Option, none, String}
use onnxcraft.Native.Machine.{M, Reply, success, failure, pure, ◌>>=◌, ◌>>◌, deref, when_some}
use onnxcraft.Native.Flow.{Exit, next, goto_fail}
use onnxcraft.Ort.Enums.{OrtErrorCode}
use onnxcraft.Ort.Api.{OrtApi}
use onnxcraft.Ort.Calls.{
  release_session_options, add_session_config_entry, create_run_options, run_options_set_terminate,
  release_run_options, get_error_code, get_error_message, release_status,
}
use onnxcraft.Bridge.Types.{OcRuntime, OcOptions}
use onnxcraft.Bridge.Options.Body.{options_body}

module _ {S : Type 0} (api : OrtApi S) where
  -- `*out = o; return NULL;`, and the label.
  unfoldable pub finish_options : (a : ℕ) → Exit (Option ℕ) ℕ → M S (Reply ℕ)
  finish_options a (next o _) = pure (success o)
  finish_options a (goto_fail st o) =
      when_some o (λ p. release_session_options api a p) >> pure (failure st)

  unfoldable pub oc_options_new : OcRuntime → OcOptions → M S (Reply ℕ)
  unfolding options_body
  oc_options_new r config = do
    a ← deref r.api
    e ← options_body api a config none
    finish_options a e

  unfoldable pub oc_config : OcRuntime → (o : ℕ) → (key value : String) → M S (Reply (Unit {0}))
  unfolding add_session_config_entry deref
  oc_config r o key value = do a ← deref r.api; add_session_config_entry api a o key value

  unfoldable pub oc_options_free : OcRuntime → (o : ℕ) → M S (Unit {0})
  unfolding release_session_options deref
  oc_options_free r o = do a ← deref r.api; release_session_options api a o

  unfoldable pub oc_run_options : OcRuntime → M S (Reply ℕ)
  unfolding create_run_options deref
  oc_run_options r = do a ← deref r.api; create_run_options api a

  -- `if (status) r->api->ReleaseStatus(status);`
  unfoldable pub drop_status : (a : ℕ) → Reply (Unit {0}) → M S (Unit {0})
  unfolding release_status
  drop_status a (success _) = pure tt
  drop_status a (failure st) = release_status api a st

  unfoldable pub oc_terminate : OcRuntime → (options : ℕ) → M S (Unit {0})
  unfolding run_options_set_terminate drop_status deref
  oc_terminate r o = do a ← deref r.api; s ← run_options_set_terminate api a o; drop_status a s

  unfoldable pub oc_run_options_free : OcRuntime → (options : ℕ) → M S (Unit {0})
  unfolding release_run_options deref
  oc_run_options_free r o = do a ← deref r.api; release_run_options api a o

  unfoldable pub oc_error_code : OcRuntime → (status : ℕ) → M S OrtErrorCode
  unfolding get_error_code deref
  oc_error_code r st = do a ← deref r.api; get_error_code api a st

  unfoldable pub oc_error_message : OcRuntime → (status : ℕ) → M S String
  unfolding get_error_message deref
  oc_error_message r st = do a ← deref r.api; get_error_message api a st

  unfoldable pub oc_error_free : OcRuntime → (status : ℕ) → M S (Unit {0})
  unfolding release_status deref
  oc_error_free r st = do a ← deref r.api; release_status api a st
