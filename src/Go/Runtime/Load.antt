-- ===== src/Go/Runtime/Load.antt =====
-- `load` of runtime.go, after its checks of the runtime: a model is loaded and its inputs and
-- outputs are described.
use onnxcraft.Common.{
  ℕ, zero, suc, ◌%◌, ◌^◌, true, false, ℤ, String, List, [], ◌∷◌, Option, none, some, if◌then◌else◌,
  ◌==◌, take, drop,
}
use mathlib.Core.Option
use onnxcraft.Native.Machine.{M, pure, ◌>>=◌, ◌>>◌, undefined, deref}
use onnxcraft.Ort.Enums.{element_data_type_value}
use onnxcraft.Bridge.Types.{OcRuntime, OcPort, OcSession, OcOptions}
use onnxcraft.Bridge.Session.{port_count}
use onnxcraft.Bridge.Interface.{Bridge}
use onnxcraft.Go.Result.{Result, good, bad}
use onnxcraft.Go.Cgo.{Cgo, c_string, c_free, name_text, is_empty}
use onnxcraft.Go.Tensor.{data_type_size}
use onnxcraft.Go.Runtime.Types.{GoError, SessionOptions, TensorInfo, Session}
use onnxcraft.Go.Runtime.Config.{oc_options_of}
use onnxcraft.Go.Runtime.Errors.{native_error, on_good}
use onnxcraft.Go.Runtime.Options.{add_config, add_providers}

-- `DataType(p._type)`, of 8 bits.
abbrev pub data_type_of : OcPort → ℕ
data_type_of p = element_data_type_value p.type % 2 ^ 8

-- `unsafe.Slice(p, n)`, where that many entries are there.
unfoldable pub slice : {A : Type 0} → ℕ → List A → Option (List A)
slice zero xs = some []
slice (suc n) [] = none
slice (suc n) (x ∷ xs) = Option.map (◌∷◌ x) (slice n xs)

-- The shape of a port, copied; without dimensions nothing is read.
unfoldable pub port_shape : (rank : ℕ) → Option (List ℤ) → Option (List ℤ)
unfolding slice
port_shape zero dims = some []
port_shape (suc n) none = none
port_shape (suc n) (some dims) = slice (suc n) dims

module _ {S : Type 0} (cgo : Cgo S) (c : Bridge S) where
  -- The loop over the first `n` ports, those of `whole`.
  unfoldable pub describe_ports :
      (whole : OcSession) → (n : ℕ) → List OcPort → M S (Result GoError (List TensorInfo))
  unfolding name_text data_type_size port_shape on_good
  describe_ports whole zero ps = pure (good [])
  describe_ports whole (suc n) [] = undefined
  describe_ports whole (suc n) (p ∷ ps) =
      let rest = describe_ports whole n ps in
      do
        block ← deref p.name
        name ← name_text cgo block
        (if data_type_size (data_type_of p) == 0
            then (do
              c.oc_session_free (some whole)
              pure (bad (GoError.unsupported_type name (element_data_type_value p.type))))
            else (do
              shape ← deref (port_shape p.rank p.dims)
              infos ← rest
              on_good infos λ is.
                  pure (good (record { name = name; dtype = data_type_of p; shape = shape } ∷ is))))

  -- The session that `load` returns.
  abbrev pub session_of : SessionOptions → OcSession → List TensorInfo → Session
  session_of o ptr info = record {
    native = some ptr;
    inputs = take ptr.inputs info;
    outputs = drop ptr.inputs info;
    gated = (elim o.providers [ [] ↦ false | _ ∷ _ ↦ true ]);
  }

  unfoldable pub describe_session : SessionOptions → OcSession → M S (Result GoError Session)
  unfolding describe_ports on_good
  describe_session o ptr = do
    info ← describe_ports ptr (port_count ptr) ptr.port_array
    on_good info λ is. pure (good (session_of o ptr is))

  module _ (r : OcRuntime) (o : SessionOptions) (raw : ℕ) (model length : ℕ) where
    unfoldable pub call_load : Option String → M S (Result GoError Session)
    unfolding native_error on_good describe_session
    call_load path = do
      reply ← c.oc_load r path model length raw
      ptr ← native_error c r reply
      on_good ptr (describe_session o)

    -- With a path, its copy is freed at the end.
    unfoldable pub load_model : (path : String) → Unit {0} → M S (Result GoError Session)
    unfolding call_load is_empty c_string c_free
    load_model path _ = if is_empty path then call_load none else (do
      cpath ← c_string cgo path
      session ← call_load (some path)
      c_free cgo cpath
      pure session)

    unfoldable pub load_with : (path : String) → M S (Result GoError Session)
    unfolding add_config add_providers on_good load_model
    load_with path = do
      configured ← add_config cgo c r raw o.config
      provided ← on_good configured λ _. add_providers cgo c r raw o.providers
      session ← on_good provided (load_model path)
      c.oc_options_free r raw
      pure session

  module _ (r : OcRuntime) (o : SessionOptions) (path : String) (model length : ℕ) where
    unfoldable pub load_configured : OcOptions → M S (Result GoError Session)
    unfolding native_error on_good load_with
    load_configured config = do
      reply ← c.oc_options_new r config
      raw ← native_error c r reply
      on_good raw λ raw. load_with r o raw model length path

    unfoldable pub load_session : M S (Result GoError Session)
    unfolding oc_options_of on_good load_configured
    load_session = on_good (oc_options_of o) load_configured
