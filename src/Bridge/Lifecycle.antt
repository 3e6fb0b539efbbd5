-- ===== src/Bridge/Lifecycle.antt =====
-- `oc_open` with `oc_close`, and `oc_load` with `oc_session_free`, as the Go package pairs them: the
-- calls in sequence, on every path.
use onnxcraft.Common.{ℕ, ◌≤◌, List, [], Option, some, String, arith}
use onnxcraft.Native.Ledger.{Kind, Resource, resource, count}
use onnxcraft.Native.Machine.{World, M, Run, and_then, Reply, success, failure, pure, ◌>>=◌, ◌>>◌}
use onnxcraft.Native.Rules.{
  Ensures, ensures, bind, Holds, Same-refl, Answered, succeeded, failed, nothing_new,
}
use onnxcraft.Ort.Api.{OrtApi, Host}
use onnxcraft.Bridge.Types.{OcRuntime, OcSession}
use onnxcraft.Bridge.Open.{OpenResult, Text, oc_close, oc_open}
use onnxcraft.Bridge.Open.Owned.{close_serving}
use onnxcraft.Bridge.Open.Correct.{
  ready_runtime, text_owned, CodeOf, Opened, opened, refused, oc_open-Opened,
}
use onnxcraft.Bridge.Session.{oc_session_free}
use onnxcraft.Bridge.Session.Owned.{oc_session_free-Holds}
use onnxcraft.Bridge.Load.{oc_load}
use onnxcraft.Bridge.Load.Answered.{SessionAnswered}
use onnxcraft.Bridge.Load.Correct.{loaded, LoadEnds, load_done, load_failed, oc_load-LoadEnds}

module _ {S : Type 0} (api : OrtApi S) (host : Host S) where
  -- `oc_close(out)` after `oc_open`, with the error text still to be freed.
  unfoldable pub close_opened : OpenResult → M S (Option Text)
  unfolding oc_close
  close_opened r = do oc_close api host r.out; pure r.error

  unfoldable pub open_close : String → M S (Option Text)
  unfolding oc_open close_opened
  open_close path = oc_open api host path >>= close_opened

  -- `oc_session_free(out)` after `oc_load`.
  unfoldable pub free_loaded : Reply OcSession → M S (Reply (Unit {0}))
  unfolding oc_session_free
  free_loaded (success s) = do oc_session_free api host (some s); pure (success tt)
  free_loaded (failure st) = pure (failure st)

  unfoldable pub load_free :
      OcRuntime → Option String → (model length options : ℕ) → M S (Reply (Unit {0}))
  unfolding oc_load free_loaded
  load_free r path model length o = oc_load api host r path model length o >>= free_loaded

  module _ {base : List Resource} where
    after_open :
        {r : Run S OpenResult}
        → Ensures (Opened (CodeOf api) base) r
        → Ensures (λ e w'. Holds base (text_owned e) w') (and_then r close_opened)
    unfolding close_opened
    after_open (ensures (opened {p} {l} {env} {memory} {allocator} {version} h)) =
        bind
          (close_serving api host p l (some env) (some memory) (some allocator) (some version) [] h
            (Same-refl _))
          λ _ w₁ h₁. ensures h₁
    after_open (ensures (refused c h)) = ensures h

    -- `oc_open` followed by `oc_close` runs without undefined behaviour, whatever the loader, the C
    -- library and ONNX Runtime answer, and all that is newly live at the end is the error text, if
    -- there is one.
    pub open_close-Holds :
        (path : String) {w : World S}
        → Holds base [] w
        → Ensures (λ e w'. Holds base (text_owned e) w') (open_close path w)
    unfolding open_close
    open_close-Holds path h = after_open (oc_open-Opened api host path h)

    module _ (p l env memory allocator : ℕ) (version : String)
        (served : 1 ≤ count (resource Kind.library_handle l) base) where
      after_load :
          {r : Run S (Reply OcSession)}
          → Ensures
              (LoadEnds base p l env memory allocator version (SessionAnswered api allocator))
              r
          → Ensures (Answered base nothing_new []) (and_then r free_loaded)
      unfolding free_loaded
      after_load (ensures (load_failed h)) = ensures (failed h)
      after_load
            (ensures (
              load_done
                (loaded {self} {h} {inputs} {outputs} {pb} {nb} {ps} {ns} f e o fits)
                told
                held)) =
          bind
            (oc_session_free-Holds api host p l env memory allocator version served self (some h)
              inputs outputs (some pb) ps (some nb) ns [] (omega arith) held (Same-refl _))
            λ _ w₁ h₁. ensures (succeeded h₁)

      -- On a ready runtime that is live, and with live session options, `oc_load` followed by
      -- `oc_session_free` of the session it returns runs without undefined behaviour, and all that
      -- is newly live at the end is the status, if `oc_load` returns one.
      pub load_free-Answered :
          (path : Option String) (model size o : ℕ) {w : World S}
          → 1 ≤ count (resource Kind.env_handle env) base
          → 1 ≤ count (resource Kind.session_options_handle o) base
          → Holds base [] w
          → Ensures
              (Answered base nothing_new [])
              (load_free (ready_runtime p l env memory allocator version) path model size o w)
      unfolding load_free
      load_free-Answered path model size o e s h = after_load (
          oc_load-LoadEnds p l env memory allocator version api host served path model size o e s h)
