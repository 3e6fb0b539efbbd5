-- ===== src/Bridge/Run/Release.antt =====
-- What `run` releases: `oc_outputs_free`, and the loop over `values` behind its label.
use onnxcraft.Common.{ℕ, zero, suc, List, [], ◌∷◌, Option, none}
use onnxcraft.Native.Machine.{M, pure, ◌>>=◌, ◌>>◌, undefined, deref, when_some}
use onnxcraft.Ort.Enums.{OnnxTensorElementDataType}
use onnxcraft.Ort.Api.{OrtApi}
use onnxcraft.Ort.Calls.{release_value}
use onnxcraft.Bridge.Types.{OcRuntime, OcSession, OcTensor}

-- `memset(&outputs[i], 0, sizeof(outputs[i]))`
abbrev pub zero_tensor : OcTensor
zero_tensor = record {
  data_ptr = 0;
  shape = 0;
  bytes = 0;
  rank = 0;
  type = OnnxTensorElementDataType.undefined;
  value = none;
}

module _ {S : Type 0} (api : OrtApi S) where
  -- The loop over `k` outputs from the one that the list begins with.
  unfoldable pub free_outputs : OcRuntime → (k : ℕ) → List OcTensor → M S (List OcTensor)
  unfolding release_value deref when_some
  free_outputs r zero ts = pure ts
  free_outputs r (suc k) [] = undefined
  free_outputs r (suc k) (t ∷ ts) = do
    when_some t.value λ v. (do a ← deref r.api; release_value api a v)
    rest ← free_outputs r k ts
    pure (zero_tensor ∷ rest)

  unfoldable pub oc_outputs_free : OcSession → List OcTensor → M S (List OcTensor)
  oc_outputs_free s ts = free_outputs s.runtime s.outputs ts

  -- `if (values[i]) a->ReleaseValue(values[i]);` for each entry.
  unfoldable pub release_values : (a : ℕ) → List (Option ℕ) → M S (Unit {0})
  unfolding release_value when_some
  release_values a [] = pure tt
  release_values a (v ∷ vs) = do when_some v λ p. release_value api a p; release_values a vs
