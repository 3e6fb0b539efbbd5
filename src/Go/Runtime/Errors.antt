-- ===== src/Go/Runtime/Errors.antt =====
-- `nativeError` of runtime.go, and the early return on an error.
use onnxcraft.Native.Machine.{M, Reply, success, failure, pure, ◌>>=◌, ◌>>◌}
use onnxcraft.Ort.Enums.{error_code_value}
use onnxcraft.Bridge.Types.{OcRuntime}
use onnxcraft.Bridge.Interface.{Bridge}
use onnxcraft.Go.Result.{Result, good, bad}
use onnxcraft.Go.Runtime.Types.{GoError}

module _ {S : Type 0} where
  unfoldable pub native_error :
      {A : Type 0} → Bridge S → OcRuntime → Reply A → M S (Result GoError A)
  native_error c r (success a) = pure (good a)
  native_error c r (failure st) = do
    code ← c.oc_error_code r st
    message ← c.oc_error_message r st
    c.oc_error_free r st
    pure (bad (GoError.native (error_code_value code) message))

  -- `if err != nil { return nil, err }`
  unfoldable pub on_good :
      {A B : Type 0} → Result GoError A → (A → M S (Result GoError B)) → M S (Result GoError B)
  on_good (bad e) k = pure (bad e)
  on_good (good a) k = k a
