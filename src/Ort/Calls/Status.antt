-- ===== src/Ort/Calls/Status.antt =====
-- OrtStatus: every status that comes back is owned by the caller.
use onnxcraft.Common.{ℕ, String, [], ◌∷◌}
use onnxcraft.Native.Ledger.{Kind, resource}
use onnxcraft.Native.Machine.{M}
use onnxcraft.Native.Calls.{reading, minting, releasing}
use onnxcraft.Ort.Enums.{OrtErrorCode}
use onnxcraft.Ort.Api.{OrtApi}

module _ {S : Type 0} (api : OrtApi S) (a : ℕ) where
  unfoldable pub create_status : OrtErrorCode → String → M S ℕ
  create_status code msg =
      minting Kind.status_handle (resource Kind.library_handle a ∷ []) (api.create_status code msg)

  unfoldable pub get_error_code : ℕ → M S OrtErrorCode
  get_error_code st =
      reading (resource Kind.library_handle a ∷ resource Kind.status_handle st ∷ [])
        (api.get_error_code st)

  unfoldable pub get_error_message : ℕ → M S String
  get_error_message st =
      reading (resource Kind.library_handle a ∷ resource Kind.status_handle st ∷ [])
        (api.get_error_message st)

  unfoldable pub release_status : ℕ → M S (Unit {0})
  release_status st =
      releasing Kind.status_handle st (resource Kind.library_handle a ∷ []) (api.release_status st)
