-- ===== src/Ort/Calls/Session.antt =====
-- OrtSession: creation, and the names and types of a model's inputs and outputs.
use onnxcraft.Common.{ℕ, String, [], ◌∷◌}
use onnxcraft.Native.Ledger.{Kind, resource}
use onnxcraft.Native.Machine.{M, Reply}
use onnxcraft.Native.Calls.{asking, creating, releasing}
use onnxcraft.Ort.Api.{OrtApi}

module _ {S : Type 0} (api : OrtApi S) (a : ℕ) where
  unfoldable pub create_session : (env : ℕ) → String → (options : ℕ) → M S (Reply ℕ)
  create_session env path o =
      creating Kind.session_handle
        (resource Kind.library_handle a
          ∷ resource Kind.env_handle env
          ∷ resource Kind.session_options_handle o
          ∷ [])
        (api.create_session env path o)

  unfoldable pub create_session_from_array : (env model length options : ℕ) → M S (Reply ℕ)
  create_session_from_array env model length o =
      creating Kind.session_handle
        (resource Kind.library_handle a
          ∷ resource Kind.env_handle env
          ∷ resource Kind.session_options_handle o
          ∷ [])
        (api.create_session_from_array env model length o)

  unfoldable pub release_session : ℕ → M S (Unit {0})
  release_session s =
      releasing Kind.session_handle s (resource Kind.library_handle a ∷ []) (api.release_session s)

  unfoldable pub session_get_input_count : ℕ → M S (Reply ℕ)
  session_get_input_count s =
      asking (resource Kind.library_handle a ∷ resource Kind.session_handle s ∷ [])
        (api.session_get_input_count s)

  unfoldable pub session_get_input_name : (session index allocator : ℕ) → M S (Reply ℕ)
  session_get_input_name s i allocator =
      creating Kind.name_block
        (resource Kind.library_handle a ∷ resource Kind.session_handle s ∷ [])
        (api.session_get_input_name s i allocator)

  unfoldable pub session_get_input_type_info : (session index : ℕ) → M S (Reply ℕ)
  session_get_input_type_info s i =
      creating Kind.type_info_handle
        (resource Kind.library_handle a ∷ resource Kind.session_handle s ∷ [])
        (api.session_get_input_type_info s i)

  unfoldable pub session_get_output_count : ℕ → M S (Reply ℕ)
  session_get_output_count s =
      asking (resource Kind.library_handle a ∷ resource Kind.session_handle s ∷ [])
        (api.session_get_output_count s)

  unfoldable pub session_get_output_name : (session index allocator : ℕ) → M S (Reply ℕ)
  session_get_output_name s i allocator =
      creating Kind.name_block
        (resource Kind.library_handle a ∷ resource Kind.session_handle s ∷ [])
        (api.session_get_output_name s i allocator)

  unfoldable pub session_get_output_type_info : (session index : ℕ) → M S (Reply ℕ)
  session_get_output_type_info s i =
      creating Kind.type_info_handle
        (resource Kind.library_handle a ∷ resource Kind.session_handle s ∷ [])
        (api.session_get_output_type_info s i)
