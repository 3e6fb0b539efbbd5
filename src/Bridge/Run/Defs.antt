-- ===== src/Bridge/Run/Defs.antt =====
-- `run` around its body, and its two entry points.
use onnxcraft.Common.{
  ℕ, ◌+◌, ◌*◌, ◌/◌, ◌%◌, ◌^◌, List, [], Option, none, some, leb, Bool, true, false, replicate, take,
  length, if◌then◌else◌,
}
use onnxcraft.Native.Machine.{M, Reply, success, failure, pure, ◌>>=◌, ◌>>◌, deref, when_some}
use onnxcraft.Native.Flow.{Exit, next, goto_fail}
use onnxcraft.Ort.Enums.{OrtErrorCode}
use onnxcraft.Ort.Api.{OrtApi, Host}
use onnxcraft.Ort.Calls.{create_status, calloc, free}
use onnxcraft.Bridge.Types.{OcSession, OcTensor}
use onnxcraft.Bridge.Run.Release.{oc_outputs_free, release_values}
use onnxcraft.Bridge.Run.Body.{RunLocals, run_body}

-- The array that `outputs` points to.
abbrev pub array_of : Option (List OcTensor) → List OcTensor
array_of none = []
array_of (some ts) = ts

-- The first `n` entries of an array, which must have as many.
abbrev pub entries : {A : Type 0} → ℕ → List A → Option (List A)
entries n xs = if leb n (length xs) then some (take n xs) else none

-- `OrtValue *local[16] = {0};`
abbrev pub local_values : List (Option ℕ)
local_values = replicate 16 none

-- A block of `bytes` bytes as an array of pointers, all NULL.
abbrev pub null_pointers : (bytes : ℕ) → Option ℕ → Option (ℕ × List (Option ℕ))
null_pointers bytes none = none
null_pointers bytes (some p) = some (p, replicate (bytes / 8) none)

module _ {S : Type 0} (api : OrtApi S) (host : Host S) (a empty : ℕ) (s : OcSession) where
  -- `if (status && outputs) oc_outputs_free(s, outputs);`
  unfoldable pub clear_outputs : Option (List OcTensor) → List OcTensor → M S (List OcTensor)
  unfolding oc_outputs_free
  clear_outputs none ts = pure ts
  clear_outputs (some _) ts = oc_outputs_free api s ts

  -- The code behind the label, which is reached either way.
  unfoldable pub finish_run :
      Option (List OcTensor)
      → (block : Option ℕ) → Exit RunLocals (Unit {0})
      → M S (Reply (Unit {0}) × List OcTensor)
  unfolding release_values free when_some clear_outputs
  finish_run outs block (next _ l) = do
    release_values api a l.values
    when_some block λ p. free host p
    pure (success tt, l.outputs)
  finish_run outs block (goto_fail st l) = do
    release_values api a l.values
    when_some block λ p. free host p
    ts ← clear_outputs outs l.outputs
    pure (failure st, ts)

  -- With `array` for `values`. The code behind the label reads its entries up to `n` on every path.
  unfoldable pub run_in :
      (options : Option ℕ)
      → List OcTensor
      → (pre outs : Option (List OcTensor)) → (n : ℕ) → (array : List (Option ℕ))
      → (block : Option ℕ) → M S (Reply (Unit {0}) × List OcTensor)
  unfolding run_body finish_run deref
  run_in options ts pre outs n array block = do
    values ← deref (entries n array)
    e ←
        run_body api a empty s options ts pre n
          (record { values = values; outputs = array_of outs })
    finish_run outs block e

  -- Where `calloc` was called.
  unfoldable pub run_block :
      (options : Option ℕ)
      → List OcTensor
      → (pre outs : Option (List OcTensor)) → (n : ℕ) → (block : Option (ℕ × List (Option ℕ)))
      → M S (Reply (Unit {0}) × List OcTensor)
  unfolding create_status run_in
  run_block options ts pre outs n none = do
    st ← create_status api a OrtErrorCode.fail "allocate run values: out of memory"
    pure (failure st, array_of outs)
  run_block options ts pre outs n (some (p, array)) = run_in options ts pre outs n array (some p)

module _ {S : Type 0} (api : OrtApi S) (host : Host S) (empty : ℕ) where
  -- `calloc(count, size)` for an array of pointers.
  unfoldable pub calloc_pointers : (count size : ℕ) → M S (Option (ℕ × List (Option ℕ)))
  unfolding calloc
  calloc_pointers count size = do
    block ← calloc host count size
    pure (null_pointers (count * size) block)

  -- `n <= 16 ? local : calloc(n, sizeof(*values))`
  unfoldable pub run_sized :
      (a : ℕ)
      → OcSession
      → (options : Option ℕ) → List OcTensor
      → (pre outs : Option (List OcTensor)) → (n : ℕ) → (small : Bool)
      → M S (Reply (Unit {0}) × List OcTensor)
  unfolding run_in run_block calloc_pointers
  run_sized a s options ts pre outs n true =
      run_in api host a empty s options ts pre outs n local_values none
  run_sized a s options ts pre outs n false = do
    block ← calloc_pointers n 8
    run_block api host a empty s options ts pre outs n block

  unfoldable pub run :
      OcSession
      → (options : Option ℕ) → List OcTensor
      → (pre outs : Option (List OcTensor)) → M S (Reply (Unit {0}) × List OcTensor)
  unfolding run_sized deref
  run s options ts pre outs = do
    a ← deref s.runtime.api
    n ← pure ((s.inputs + s.outputs) % 2 ^ 64)
    run_sized a s options ts pre outs n (leb n 16)

  unfoldable pub oc_run :
      OcSession
      → (options : Option ℕ) → List OcTensor
      → List OcTensor
      → M S (Reply (Unit {0}) × List OcTensor)
  unfolding run
  oc_run s options ts outs = run s options ts none (some outs)

  unfoldable pub oc_run_into :
      OcSession
      → (options : Option ℕ) → List OcTensor
      → List OcTensor
      → M S (Reply (Unit {0}) × List OcTensor)
  unfolding run
  oc_run_into s options ts pre = run s options ts (some pre) none
