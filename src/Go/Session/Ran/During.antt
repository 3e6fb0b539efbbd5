-- ===== src/Go/Session/Ran/During.antt =====
-- What the callback does while the bridge runs: the options stay live, and the caller does not move.
use onnxcraft.Common.{ℕ, zero, suc, List, [], ◌∷◌, take}
use onnxcraft.Native.Ledger.{Resource}
use onnxcraft.Native.Machine.{World}
use onnxcraft.Native.Rules.{Ensures, ensures, bind, Holds}
use onnxcraft.Ort.Enums.{OrtErrorCode}
use onnxcraft.Bridge.Interface.{Bridge}
use onnxcraft.Bridge.Interface.Laws.{Handle, the_runtime, Served, HasRunOptions, IsBridge}
use onnxcraft.Go.Session.Watch.{
  Callback, armed, stopped, started, terminated, ended, using, Watch, Event, context_ends,
  call_terminate, close_done, call_stop, receive_done, free_options, begin, close, terminate_run,
  happen, interleave, callback_events,
}
use onnxcraft.Go.Session.Watched.States.{
  begun_started, begun_terminated, Unstopped, not_begun, begun, Begun-begin, Begun-close,
}

-- The watcher during a run.
pub data During (o : ℕ) : Watch → Type 0 where
  during :
      {b : Callback} → Unstopped b → During o (record { options = o; callback = b; caller = using })

data CallbackEvent : Event → Type 0 where
  its_start : CallbackEvent context_ends
  its_call : CallbackEvent call_terminate
  its_end : CallbackEvent close_done

abbrev CallbackEvents : List Event → Type 0
CallbackEvents [] = Unit
CallbackEvents (event ∷ events) = CallbackEvent event × CallbackEvents events

CallbackEvents-take :
    (k : ℕ) (events : List Event) → CallbackEvents events → CallbackEvents (take k events)
CallbackEvents-take zero events a = tt
CallbackEvents-take (suc k) [] a = tt
CallbackEvents-take (suc k) (event ∷ events) a = (a.0, CallbackEvents-take k events a.1)

Unstopped-begin : {b : Callback} → Unstopped b → Unstopped (begin b)
Unstopped-begin not_begun = begun begun_started
Unstopped-begin (begun b) = begun (Begun-begin b)

Unstopped-close : {b : Callback} → Unstopped b → Unstopped (close b)
Unstopped-close not_begun = not_begun
Unstopped-close (begun b) = begun (Begun-close b)

module _ {S : Type 0} {c : Bridge S} {Code : OrtErrorCode → Type 0} (laws : IsBridge S c Code)
    (base : List Resource) (h : Handle) (served : Served base h) (own : List Resource) (o : ℕ)
    (given : HasRunOptions base o) where
  terminate_run-Unstopped :
      (b : Callback) {w : World S}
      → Unstopped b
      → Holds base own w
      → Ensures (λ b' w'. Unstopped b' × Holds base own w') (terminate_run c (the_runtime h) o b w)
  unfolding terminate_run
  terminate_run-Unstopped armed u held = ensures (u, held)
  terminate_run-Unstopped stopped u held = ensures (u, held)
  terminate_run-Unstopped started u held =
      bind (laws.oc_terminate-Holds base h o own served given held)
        λ _ w₁ held₁. ensures (begun begun_terminated, held₁)
  terminate_run-Unstopped terminated u held = ensures (u, held)
  terminate_run-Unstopped ended u held = ensures (u, held)

  happen-During :
      (event : Event) (x : Watch) {w : World S}
      → CallbackEvent event
      → During o x
      → Holds base own w
      → Ensures (λ x' w'. During o x' × Holds base own w') (happen c (the_runtime h) event x w)
  unfolding happen
  happen-During context_ends x its_start (during u) held =
      ensures (during (Unstopped-begin u), held)
  happen-During call_terminate x its_call (during {b} u) held =
      bind (terminate_run-Unstopped b u held) λ b' w₁ p. ensures (during p.0, p.1)
  happen-During close_done x its_end (during u) held = ensures (during (Unstopped-close u), held)
  happen-During call_stop x q d held = elim q [ ]
  happen-During receive_done x q d held = elim q [ ]
  happen-During free_options x q d held = elim q [ ]

  interleave-During :
      (events : List Event) (x : Watch) {w : World S}
      → CallbackEvents events
      → During o x
      → Holds base own w
      → Ensures (λ x' w'. During o x' × Holds base own w') (interleave c (the_runtime h) events x w)
  unfolding interleave
  interleave-During [] x a d held = ensures (d, held)
  interleave-During (event ∷ events) x a d held =
      bind (happen-During event x a.0 d held) λ x' w₁ p. interleave-During events x' a.1 p.0 p.1

  -- The callback comes to its step `k`.
  pub callback-During :
      (k : ℕ) (x : Watch) {w : World S}
      → During o x
      → Holds base own w
      → Ensures
          (λ x' w'. During o x' × Holds base own w')
          (interleave c (the_runtime h) (take k callback_events) x w)
  callback-During k x d held =
      interleave-During (take k callback_events) x
        (CallbackEvents-take k callback_events (its_start, (its_call, (its_end, tt)))) d held
