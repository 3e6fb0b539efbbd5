-- ===== src/Bridge/Interface.antt =====
-- The functions that bridge.h declares, as the Go package calls them, and what it relies on.
pub mod Laws
pub mod Implementation
use onnxcraft.Common.{ℕ, String, List, Option}
use onnxcraft.Native.Machine.{M, Reply}
use onnxcraft.Ort.Enums.{OrtErrorCode}
use onnxcraft.Bridge.Types.{OcRuntime, OcSession, OcOptions, OcTensor}
use onnxcraft.Bridge.Open.{OpenResult}

-- `oc_run` and its kin answer with the outputs as they leave them; `oc_run_into` leaves them alone.
pub record Bridge (S : Type 0) : Type 0 where
  pub oc_open : String → M S OpenResult
  pub oc_close : Option OcRuntime → M S (Unit {0})
  pub oc_options_new : OcRuntime → OcOptions → M S (Reply ℕ)
  pub oc_config : OcRuntime → (o : ℕ) → (key value : String) → M S (Reply (Unit {0}))
  pub oc_provider : OcRuntime → (o : ℕ) → String → List (String × String) → M S (Reply (Unit {0}))
  pub oc_options_free : OcRuntime → (o : ℕ) → M S (Unit {0})
  pub oc_load : OcRuntime → Option String → (model length options : ℕ) → M S (Reply OcSession)
  pub oc_session_free : Option OcSession → M S (Unit {0})
  pub oc_run :
      OcSession
      → (options : Option ℕ) → (inputs outputs : List OcTensor)
      → M S (Reply (Unit {0}) × List OcTensor)
  pub oc_run_into :
      OcSession
      → (options : Option ℕ) → (inputs outputs : List OcTensor)
      → M S (Reply (Unit {0}) × List OcTensor)
  pub oc_outputs_free : OcSession → List OcTensor → M S (List OcTensor)
  pub oc_run_options : OcRuntime → M S (Reply ℕ)
  pub oc_terminate : OcRuntime → (options : ℕ) → M S (Unit {0})
  pub oc_run_options_free : OcRuntime → (options : ℕ) → M S (Unit {0})
  pub oc_error_code : OcRuntime → (status : ℕ) → M S OrtErrorCode
  pub oc_error_message : OcRuntime → (status : ℕ) → M S String
  pub oc_error_free : OcRuntime → (status : ℕ) → M S (Unit {0})
