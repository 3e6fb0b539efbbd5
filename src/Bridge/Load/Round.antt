-- ===== src/Bridge/Load/Round.antt =====
-- One round of the loop of `oc_load`: what it owns when it stops, and what a finished round wrote.
use onnxcraft.Common.{
  ℕ, zero, suc, ◌+◌, ◌-◌, ◌*◌, ◌≤◌, ◌/◌, ◌%◌, ◌^◌, ◌≡◌, ◌⊎◌, inl, inr, refl, Bool, true, false, ℤ,
  List, [], ◌∷◌, ◌++◌, Option, none, some, arith, length, ◌==◌, ltb, leb, subst, Bool-cases,
}
use onnxcraft.Native.Ledger.{Kind, Resource, resource, count, one_self}
use onnxcraft.Native.Machine.{World}
use onnxcraft.Native.Rules.{Ensures, ensures, Holds, Holds-Same, Same-refl, Live, opt_owned}
use onnxcraft.Native.Calls.{
  Answers, asking-Replied, creating-Replied, minting-Holds, allocating-Holds, releasing-Holds,
}
use onnxcraft.Native.Flow.{
  continue_with, arrived, Ends, goes_on, then_flow, then_reply, then_plain, fail_rule, then_guard,
}
use onnxcraft.Ort.Enums.{OnnxTensorElementDataType, OnnxType}
use onnxcraft.Ort.Api.{OrtApi, Host}
use onnxcraft.Ort.Calls.{tabulate, get_dimensions}
use onnxcraft.Bridge.Types.{OcPort}
use onnxcraft.Bridge.Session.Owned.{port_owned}
use onnxcraft.Bridge.Load.Port.{
  PortLocals, size_max, fetch_input, fetch_output, fetch, sized_block, malloc_sized, shape_block,
  read_shape, load_shape, finish_port, describe_port, load_port, not_tensor,
}
use onnxcraft.Bridge.Load.Body.{zero_port}
use onnxcraft.Bridge.Load.Answered.{DimsAnswered, Fetches, PortAnswered}

-- What a round owns.
abbrev pub round_owned : PortLocals → List Resource
round_owned v = opt_owned Kind.type_info_handle v.info ++ port_owned v.port []

-- The dimensions of a loaded port: none for a scalar, else a block with one entry for each.
abbrev pub HasDims : Option ℕ → Option (List ℤ) → ℕ → Type 0
HasDims shape dims rank =
    ((rank ≡ 0) × (shape ≡ none) × (dims ≡ none))
    ⊎ ((b : ℕ) × (ds : List ℤ) × (shape ≡ some b)
        × (dims ≡ some ds)
        × (length ds ≡ rank)
        × (1 ≤ rank))

-- A loaded port has a name, which `names` repeats, and its dimensions.
pub record PortLoaded (p : OcPort) (alias : Option ℕ) : Type 0 where
  pub named : (n : ℕ) × (p.name ≡ some n) × (alias ≡ some n)
  pub dimensioned : HasDims p.shape p.dims p.rank

pub data RoundDone {S : Type 0} (base : List Resource) (Told : OcPort → Type 0) (a : Unit {0})
    : PortLocals → World S → Type 0 where
  round_done :
      {p : OcPort} {alias : Option ℕ} {w : World S}
      → PortLoaded p alias
      → Told p
      → Holds base (port_owned p []) w
      → RoundDone base Told a (record { port = p; alias = alias; info = none }) w

-- The variables of a round at its start, and later.
abbrev pub start : PortLocals
start = record { port = zero_port; alias = none; info = none }

abbrev port_of : (name : ℕ) → OnnxTensorElementDataType → Option ℕ → Option (List ℤ) → ℕ → OcPort
port_of n type shape dims rank = record {
  name = some n;
  type = type;
  shape = shape;
  dims = dims;
  rank = rank;
}

abbrev during :
    (name info : ℕ) → OnnxTensorElementDataType → Option ℕ → Option (List ℤ) → ℕ → PortLocals
during n info type shape dims rank = record {
  port = port_of n type shape dims rank;
  alias = some n;
  info = some info;
}

data Fetched {S : Type 0} (base : List Resource) (Told : ℕ → ℕ → Type 0) (info : ℕ)
    : PortLocals → World S → Type 0 where
  fetched :
      {n : ℕ} {w : World S}
      → Told n info
      → Holds base (resource Kind.type_info_handle info ∷ resource Kind.name_block n ∷ []) w
      → Fetched base Told info (during n info OnnxTensorElementDataType.undefined none none 0) w

data Shaped {S : Type 0} (base : List Resource) (n info : ℕ) (type : OnnxTensorElementDataType)
    (rank : ℕ) (Told : Option (List ℤ) → Type 0) (a : Unit {0})
    : PortLocals → World S → Type 0 where
  shaped :
      {shape : Option ℕ} {dims : Option (List ℤ)} {w : World S}
      → HasDims shape dims rank
      → Told dims
      → Holds base (round_owned (during n info type shape dims rank)) w
      → Shaped base n info type rank Told a (during n info type shape dims rank) w

data Allocated {S : Type 0} (base : List Resource) (n info : ℕ) (type : OnnxTensorElementDataType)
    (rank : ℕ) : Option (ℕ × ℕ) → PortLocals → World S → Type 0 where
  allocated :
      (block : Option ℕ) (bytes : ℕ) {w : World S}
      → rank * 8 ≤ bytes
      → Holds base
          (opt_owned Kind.heap_block block ++ round_owned (during n info type none none rank))
          w
      → Allocated base n info type rank
          (sized_block bytes block)
          (during n info type none none rank)
          w

tensor_only : (kind : OnnxType) → not_tensor kind ≡ false → kind ≡ OnnxType.tensor
unfolding not_tensor
tensor_only OnnxType.tensor e = refl
tensor_only OnnxType.unknown e = absurd cc
tensor_only OnnxType.sequence e = absurd cc
tensor_only OnnxType.map e = absurd cc
tensor_only OnnxType.opaque e = absurd cc
tensor_only OnnxType.sparsetensor e = absurd cc
tensor_only OnnxType.optional e = absurd cc

length-tabulate : {A : Type 0} (f : ℕ → A) (i n : ℕ) → length (tabulate f i n) ≡ n
unfolding tabulate
length-tabulate f i zero = refl
length-tabulate f i (suc n) = omega (arith, length-tabulate f (i + 1) n)

module _ {S : Type 0} (api : OrtApi S) (host : Host S) {base : List Resource}
    (l session allocator : ℕ) (served : 1 ≤ count (resource Kind.library_handle l) base)
    (alive : 1 ≤ count (resource Kind.session_handle session) base) where
  fetch-Ends :
      (inputs i : ℕ) (b : Bool) {w : World S}
      → ltb i inputs ≡ b
      → Holds base [] w
      → Ensures
          (Ends base round_owned
            (λ _. Unit)
            (Fetched base (Fetches api session allocator inputs i)))
          (fetch api host l session allocator inputs i b start w)
  unfolding fetch fetch_input fetch_output continue_with
  fetch-Ends inputs i true e h =
      then_reply (api.session_get_input_name session i allocator) _ _ tt
        (creating-Replied _ Kind.name_block _ h (omega arith))
        λ n w₁ named h₁.
          then_reply (api.session_get_input_type_info session i) _ _ tt
            (creating-Replied _ Kind.type_info_handle _ h₁ (omega arith))
            λ info w₂ typed h₂. ensures (
              goes_on (
                fetched
                  (record {
                    input_name = λ _. named;
                    input_info = λ _. typed;
                    output_name = λ k at. absurd (ground arith);
                    output_info = λ k at. absurd (ground arith);
                  })
                  h₂))
  fetch-Ends inputs i false e h =
      then_reply (api.session_get_output_name session (i - inputs) allocator) _ _ tt
        (creating-Replied _ Kind.name_block _ h (omega arith))
        λ n w₁ named h₁.
          then_reply (api.session_get_output_type_info session (i - inputs)) _ _ tt
            (creating-Replied _ Kind.type_info_handle _ h₁ (omega arith))
            λ info w₂ typed h₂. ensures (
              goes_on (
                fetched
                  (record {
                    input_name = λ lt. absurd (ground arith);
                    input_info = λ lt. absurd (ground arith);
                    output_name = λ k at.
                        subst (λ j. Answers (api.session_get_output_name session j allocator) n)
                          (place k at) named;
                    output_info = λ k at.
                        subst (λ j. Answers (api.session_get_output_type_info session j) info)
                          (place k at) typed;
                  })
                  h₂))
    where
      place : (k : ℕ) → i ≡ inputs + k → i - inputs ≡ k
      place k at = omega arith

  read_shape-Ends :
      (n info : ℕ) (type : OnnxTensorElementDataType) (tensor : Option ℕ) (rank : ℕ)
      (block : Option ℕ) (bytes : ℕ) {w : World S}
      → 1 ≤ rank
      → rank * 8 ≤ bytes
      → Holds base
          (opt_owned Kind.heap_block block ++ round_owned (during n info type none none rank))
          w
      → Ensures
          (Ends base round_owned
            (λ _. Unit)
            (Shaped base n info type rank (DimsAnswered api tensor rank)))
          (read_shape api host l session allocator info tensor rank
            (sized_block bytes block)
            (during n info type none none rank)
            w)
  unfolding read_shape get_dimensions continue_with
  read_shape-Ends n info type tensor rank none bytes pos room h =
      fail_rule _ tt (minting-Holds _ Kind.status_handle _ h (omega arith))
  read_shape-Ends n info type tensor rank (some b) bytes pos room h =
      let info_handle = resource Kind.type_info_handle info in
      let enough : leb (rank * 8) bytes ≡ true = ground arith in
      rw enough (
        then_reply (api.get_dimensions tensor rank) _ _ tt
          (asking-Replied (resource Kind.library_handle l ∷ info_handle ∷ []) _
            (Holds-Same h (record { counts = λ q. omega arith }))
            (omega (arith, one_self info_handle)))
          λ dims w₁ told h₁. ensures (
            goes_on (
              shaped (inr (b, tabulate dims 0 rank, refl, refl, length-tabulate dims 0 rank, pos))
                (inr (dims, told, refl)) h₁)))

  -- The size of the block does not wrap where the rank has passed the test.
  shape_block-Ends :
      (n info : ℕ) (type : OnnxTensorElementDataType) (rank : ℕ) (too_big : Bool) {w : World S}
      → ltb (size_max / 8) rank ≡ too_big
      → Holds base (round_owned (during n info type none none rank)) w
      → Ensures (Ends base round_owned (λ _. Unit) (Allocated base n info type rank)) (
          shape_block api host l session allocator rank too_big
            (during n info type none none rank)
            w)
  unfolding shape_block malloc_sized arrived continue_with
  shape_block-Ends n info type rank true e h =
      ensures (goes_on (allocated none (rank * 8) (omega arith) h))
  shape_block-Ends n info type rank false e h =
      let room : rank * 8 ≤ rank * 8 % 2 ^ 64 = ground arith in
      then_plain _ _ (allocating-Holds [] Kind.heap_block _ h tt)
        λ b w₁ h₁. ensures (goes_on (allocated b (rank * 8 % 2 ^ 64) room h₁))

  after_block :
      (n info : ℕ) (type : OnnxTensorElementDataType) (tensor : Option ℕ) (rank : ℕ)
      {block : Option (ℕ × ℕ)} {v : PortLocals} {w : World S}
      → 1 ≤ rank
      → Allocated base n info type rank block v w
      → Ensures
          (Ends base round_owned
            (λ _. Unit)
            (Shaped base n info type rank (DimsAnswered api tensor rank)))
          (read_shape api host l session allocator info tensor rank block v w)
  after_block n info type tensor rank pos (allocated block bytes room h) =
      read_shape-Ends n info type tensor rank block bytes pos room h

  load_shape-Ends :
      (n info : ℕ) (type : OnnxTensorElementDataType) (tensor : Option ℕ) (rank : ℕ) {w : World S}
      → Holds base (round_owned (during n info type none none rank)) w
      → Ensures
          (Ends base round_owned
            (λ _. Unit)
            (Shaped base n info type rank (DimsAnswered api tensor rank)))
          (load_shape api host l session allocator info tensor rank
            (rank == 0)
            (during n info type none none rank)
            w)
  unfolding load_shape
  load_shape-Ends n info type tensor rank h = elim (Bool-cases (rank == 0)) [
    | inl scalar ↦
        let zero_rank : rank ≡ 0 = ground arith in
        rw scalar (ensures (goes_on (shaped (inl (zero_rank, refl, refl)) (inl zero_rank) h)))
    | inr array ↦ rw array (
        then_flow (shape_block-Ends n info type rank (ltb (size_max / 8) rank) refl h)
          λ block v w q. after_block n info type tensor rank (ground arith) q)
  ]

  -- The port is described: what was told of it, for any name, rank and dimensions.
  after_shape :
      (n info : ℕ) (type : OnnxTensorElementDataType) (rank : ℕ) (Told : Option (List ℤ) → Type 0)
      (Port : OcPort → Type 0) {u : Unit {0}} {v : PortLocals} {w : World S}
      → ((shape : Option ℕ) (dims : Option (List ℤ))
          → Told dims
          → Port (port_of n type shape dims rank))
      → Shaped base n info type rank Told u v w
      → Ensures
          (Ends base round_owned (λ _. Unit) (RoundDone base Port))
          (finish_port api host l session allocator info v w)
  unfolding finish_port continue_with
  after_shape n info type rank Told Port tell (shaped {shape} {dims} d told h) =
      then_plain _ _
        (releasing-Holds _ Kind.type_info_handle info
          (port_owned (port_of n type shape dims rank) []) _ h (omega arith) (Same-refl _))
        λ _ w₁ h₁. ensures (
          goes_on (
            round_done (record { named = (n, refl, refl); dimensioned = d }) (tell shape dims told)
              h₁))

  after_fetch :
      (inputs i info : ℕ) {v : PortLocals} {w : World S}
      → Fetched base (Fetches api session allocator inputs i) info v w
      → Ensures
          (Ends base round_owned
            (λ _. Unit)
            (RoundDone base (PortAnswered api session allocator inputs i)))
          (describe_port api host l session allocator info v w)
  unfolding describe_port continue_with
  after_fetch inputs i info (fetched {n} fetches h) =
      let info_handle = resource Kind.type_info_handle info in
      let both = resource Kind.library_handle l ∷ info_handle ∷ [] in
      let live : Live base (info_handle ∷ resource Kind.name_block n ∷ []) both =
        omega (arith, one_self info_handle) in
      then_reply (api.get_onnx_type_from_type_info info) _ _ tt (asking-Replied both _ h live)
        λ kind w₁ is_kind h₁.
          then_guard (not_tensor kind) _ _ _ _ tt
            (minting-Holds _ Kind.status_handle _ h₁ (omega arith))
            λ is_tensor.
              then_reply (api.cast_type_info_to_tensor_info info) _ _ tt
                (asking-Replied both _ h₁ live)
                λ tensor w₂ is_cast h₂.
                  then_reply (api.get_tensor_element_type tensor) _ _ tt
                    (asking-Replied both _ h₂ live)
                    λ type w₃ has_type h₃.
                      then_reply (api.get_dimensions_count tensor) _ _ tt
                        (asking-Replied both _ h₃ live)
                        λ answer w₄ has_count h₄.
                          then_flow (load_shape-Ends n info type tensor (answer % 2 ^ 64) h₄)
                            λ _ v w q.
                              after_shape n info type (answer % 2 ^ 64)
                                (DimsAnswered api tensor (answer % 2 ^ 64))
                                (PortAnswered api session allocator inputs i)
                                (λ shape dims told. record {
                                  name = n;
                                  info = info;
                                  tensor = tensor;
                                  count = answer;
                                  fetches = fetches;
                                  is_named = refl;
                                  is_tensor =
                                      subst (Answers (api.get_onnx_type_from_type_info info))
                                        (tensor_only kind is_tensor) is_kind;
                                  is_cast = is_cast;
                                  has_type = has_type;
                                  has_count = has_count;
                                  has_rank = refl;
                                  has_dims = told;
                                })
                                q

  -- A round on port `i` that starts with nothing, on a live session, does not write outside the block
  -- for the dimensions, and ends in one of two ways. It finishes the port, which has the name that ONNX
  -- Runtime answers for input `i`, or behind the inputs for the output whose place it is, and the type,
  -- rank and dimensions that it answers for that one's type info. Or it jumps with what it has acquired
  -- in its variables.
  pub load_port-Ends :
      (inputs i : ℕ) {w : World S}
      → Holds base [] w
      → Ensures
          (Ends base round_owned
            (λ _. Unit)
            (RoundDone base (PortAnswered api session allocator inputs i)))
          (load_port api host l session allocator inputs i start w)
  unfolding load_port
  load_port-Ends inputs i h =
      then_flow (fetch-Ends inputs i (ltb i inputs) refl h)
        λ info v w q. after_fetch inputs i info q
