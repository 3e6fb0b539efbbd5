-- ===== src/Bridge/Load/Body.antt =====
-- The body of `oc_load` from the call that creates the session to the last port.
use onnxcraft.Common.{
  ℕ, zero, suc, ◌+◌, ◌*◌, ◌/◌, ◌%◌, ◌^◌, Bool, ◌||◌, String, List, [], Option, none, some, ltb,
  ◌==◌, not, is_some, get_elem?, set, replicate,
}
use onnxcraft.Native.Machine.{World, Run, M, done, and_then, deref}
use onnxcraft.Native.Flow.{
  Exit, next, goto_fail, Flow, ◌>>=◌, ◌>>◌, go_on, check, plain, assign, fail_if,
}
use onnxcraft.Ort.Enums.{OrtErrorCode, OnnxTensorElementDataType}
use onnxcraft.Ort.Api.{OrtApi, Host}
use onnxcraft.Bridge.Load.Model.{open_model}
use onnxcraft.Ort.Calls.{create_status, session_get_input_count, session_get_output_count, calloc}
use onnxcraft.Bridge.Types.{OcPort, OcSession}
use onnxcraft.Bridge.Load.Port.{PortLocals, size_max, load_port}

pub record LoadLocals : Type 0 where
  pub session : OcSession
  pub info : Option ℕ

-- An `oc_port` of zeros.
abbrev pub zero_port : OcPort
zero_port = record {
  name = none;
  type = OnnxTensorElementDataType.undefined;
  shape = none;
  dims = none;
  rank = 0;
}

-- `sizeof(oc_port)` on a 64-bit target
abbrev pub sizeof_port : ℕ
sizeof_port = 32

-- The entries of a block of `n` zeroed entries, if there is one.
abbrev pub zeroed {ℓ} : {A : Type ℓ} → A → ℕ → Option ℕ → List A
zeroed x n none = []
zeroed x n (some b) = replicate n x

-- What is written back to the session by a round on entry `i`.
abbrev pub put : ℕ → LoadLocals → PortLocals → LoadLocals
put i l v = record {
  session = record (l.session) {
    port_array = set (l.session.port_array) i v.port;
    name_array = set (l.session.name_array) i v.alias;
  };
  info = v.info;
}

module _ {S : Type 0} where
  unfoldable pub put_back :
      {A : Type 0} → ℕ → LoadLocals → Exit PortLocals A → World S → Run S (Exit LoadLocals A)
  put_back i l (next x v) w = done (next x (put i l v)) w
  put_back i l (goto_fail st v) w = done (goto_fail st (put i l v)) w

  -- A round on `s->ports[i]`, `s->names[i]` and `info`.
  unfoldable pub focus : {A : Type 0} → ℕ → Flow S PortLocals A → Flow S LoadLocals A
  unfolding deref
  focus i m l w = and_then (deref (get_elem? (l.session.port_array) i) w) λ p w₁.
      and_then (deref (get_elem? (l.session.name_array) i) w₁)
        λ name w₂. and_then (m (record { port = p; alias = name; info = l.info }) w₂) (put_back i l)

-- Whether the counts are refused: the sum wraps, there is no output, or the size of the ports
-- does not fit.
abbrev pub bad_counts : (inputs outputs n : ℕ) → Bool
bad_counts inputs outputs n = ltb n inputs || ((outputs == 0) || ltb (size_max / sizeof_port) n)

module _ {S : Type 0} (host : Host S) where
  -- `calloc(count, size)` for an array of entries of `entry` bytes.
  unfoldable pub calloc_array :
      {A : Type 0} → A → (entry : ℕ) → (count size : ℕ) → M S (Option ℕ × List A)
  unfolding calloc
  calloc_array x entry count size w =
      and_then (calloc host count size w)
        λ block w₁. done (block, zeroed x (count * size / entry) block) w₁

module _ {S : Type 0} (api : OrtApi S) (host : Host S) (a env allocator : ℕ) where
  unfoldable pub load_ports : (session inputs : ℕ) → (k i : ℕ) → Flow S LoadLocals (Unit {0})
  unfolding focus
  load_ports session inputs zero i = go_on tt
  load_ports session inputs (suc k) i = do
    focus i (load_port api host a session allocator inputs i)
    load_ports session inputs k (i + 1)

  unfoldable pub use_arrays :
      (handle inputs n : ℕ) → (ports names : Option ℕ) → Flow S LoadLocals (Unit {0})
  unfolding create_status
  use_arrays handle inputs n ports names = do
    fail_if (not (is_some ports) || not (is_some names))
        (create_status api a OrtErrorCode.fail "allocate model metadata: out of memory")
    load_ports handle inputs n 0

  -- The body from the allocation of the metadata on.
  unfoldable pub complete_load : (handle inputs n : ℕ) → Flow S LoadLocals (Unit {0})
  unfolding calloc_array
  complete_load handle inputs n = do
    (ports, port_array) ← plain (calloc_array host zero_port sizeof_port n sizeof_port)
    assign λ l. record l { session = record (l.session) { ports = ports; port_array = port_array } }
    (names, name_array) ← plain (calloc_array host none 8 n 8)
    assign λ l. record l { session = record (l.session) { names = names; name_array = name_array } }
    use_arrays handle inputs n ports names

  -- The counts and their sum are `size_t`.
  unfoldable pub load_body :
      Option String → (model length options : ℕ) → Flow S LoadLocals (Unit {0})
  unfolding open_model session_get_input_count session_get_output_count create_status
  load_body path model length o = do
    handle ← check (open_model api host a env path model length o)
    assign λ l. record l { session = record (l.session) { handle = some handle } }
    input_answer ← check (session_get_input_count api a handle)
    inputs ← go_on (input_answer % 2 ^ 64)
    assign λ l. record l { session = record (l.session) { inputs = inputs } }
    output_answer ← check (session_get_output_count api a handle)
    outputs ← go_on (output_answer % 2 ^ 64)
    assign λ l. record l { session = record (l.session) { outputs = outputs } }
    n ← go_on ((inputs + outputs) % 2 ^ 64)
    fail_if (bad_counts inputs outputs n)
        (create_status api a OrtErrorCode.fail "invalid model input/output count")
    complete_load handle inputs n
