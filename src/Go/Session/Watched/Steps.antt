-- ===== src/Go/Session/Watched/Steps.antt =====
-- However the callback and the caller interleave, the options are live as long as they are used, and
-- are released in the end.
use onnxcraft.Common.{ℕ, ◌≡◌, refl, List, [], ◌∷◌, ◌++◌, arith}
use onnxcraft.Native.Ledger.{Kind, Resource, resource, count-append, one_self}
use onnxcraft.Native.Machine.{World}
use onnxcraft.Native.Rules.{
  Ensures, ensures, bind, mono, Holds, Holds-frame, Holds-unframe, Same-refl,
}
use onnxcraft.Ort.Enums.{OrtErrorCode}
use onnxcraft.Bridge.Interface.{Bridge}
use onnxcraft.Bridge.Interface.Laws.{Handle, the_runtime, Served, IsBridge}
use onnxcraft.Go.Session.Watch.{
  Callback, armed, stopped, started, terminated, ended, Caller, using, waiting, releasing, released,
  Watch, Event, context_ends, call_terminate, close_done, call_stop, receive_done, free_options,
  terminate_run, release_options, happen, interleave, finish,
}
use onnxcraft.Go.Session.Watched.States.{
  quiet_stopped, quiet_ended, begun_started, begun_terminated, begun_ended, not_begun, begun,
  Watched, in_run, in_wait, in_release, at_end, IsWatched, begin-Watched, close-Watched,
  finish_from-Watched, receive-Watched,
}

module _ {S : Type 0} {c : Bridge S} {Code : OrtErrorCode → Type 0} (laws : IsBridge S c Code)
    (base : List Resource) (h : Handle) (served : Served base h) (own : List Resource) where
  terminate-Holds :
      (o : ℕ) {w : World S}
      → Holds base (resource Kind.run_options_handle o ∷ own) w
      → Ensures
          (λ _ w'. Holds base (resource Kind.run_options_handle o ∷ own) w')
          (c.oc_terminate (the_runtime h) o w)
  terminate-Holds o held =
      let handle = resource Kind.run_options_handle o in
      let live = handle ∷ own in
      mono
        (laws.oc_terminate-Holds (live ++ base) h o []
          (omega (arith, served, count-append (resource Kind.library_handle h.library) live base))
          (omega (arith, one_self handle, count-append handle live base))
          (Holds-frame live held (Same-refl [])))
        λ _ w₁ held₁. Holds-unframe live held₁ (Same-refl live)

  terminate_run-Watched :
      (o : ℕ) (b : Callback) (m : Caller) {w : World S}
      → Watched base own o b m w
      → Ensures (λ b' w'. Watched base own o b' m w') (terminate_run c (the_runtime h) o b w)
  unfolding terminate_run
  terminate_run-Watched o armed m x = ensures x
  terminate_run-Watched o stopped m x = ensures x
  terminate_run-Watched o started using (in_run u held) =
      bind (terminate-Holds o held) λ _ w₁ held₁. ensures (in_run (begun begun_terminated) held₁)
  terminate_run-Watched o started waiting (in_wait u held) =
      bind (terminate-Holds o held) λ _ w₁ held₁. ensures (in_wait begun_terminated held₁)
  terminate_run-Watched o started releasing (in_release q held) = elim q [ ]
  terminate_run-Watched o started released (at_end q held) = elim q [ ]
  terminate_run-Watched o terminated m x = ensures x
  terminate_run-Watched o ended m x = ensures x

  release_options-Watched :
      (o : ℕ) (b : Callback) (m : Caller) {w : World S}
      → Watched base own o b m w
      → Ensures (λ m' w'. Watched base own o b m' w') (release_options c (the_runtime h) o m w)
  unfolding release_options
  release_options-Watched o b using x = ensures x
  release_options-Watched o b waiting x = ensures x
  release_options-Watched o b releasing (in_release q held) =
      bind (laws.oc_run_options_free-Holds base h o own served held)
        λ _ w₁ held₁. ensures (at_end q held₁)
  release_options-Watched o b released x = ensures x

  happen-Watched :
      (event : Event) (x : Watch) {w : World S}
      → IsWatched base own x w
      → Ensures (IsWatched base own) (happen c (the_runtime h) event x w)
  unfolding happen
  happen-Watched context_ends x i = ensures (begin-Watched i)
  happen-Watched call_terminate x i =
      bind (terminate_run-Watched x.options x.callback x.caller i) λ b w₁ i₁. ensures i₁
  happen-Watched close_done x i = ensures (close-Watched i)
  happen-Watched call_stop x i = ensures (finish_from-Watched i)
  happen-Watched receive_done x i = ensures (receive-Watched i)
  happen-Watched free_options x i =
      bind (release_options-Watched x.options x.callback x.caller i) λ m w₁ i₁. ensures i₁

  -- However the callback and the caller interleave, no call is made on options that are not live, and
  -- the options are released only when the callback has ended or cannot start.
  pub interleave-Watched :
      (events : List Event) (x : Watch) {w : World S}
      → IsWatched base own x w
      → Ensures (IsWatched base own) (interleave c (the_runtime h) events x w)
  unfolding interleave
  interleave-Watched [] x i = ensures i
  interleave-Watched (event ∷ events) x i =
      bind (happen-Watched event x i) λ x' w₁ i₁. interleave-Watched events x' i₁

  free_last :
      (o : ℕ) (b : Callback) {w : World S}
      → Holds base (resource Kind.run_options_handle o ∷ own) w
      → Ensures
          (λ x w'. (x.caller ≡ released) × Holds base own w')
          (interleave c
            (the_runtime h)
            (free_options ∷ [])
            (record { options = o; callback = b; caller = releasing })
            w)
  unfolding interleave happen release_options
  free_last o b held =
      bind {P = λ x w'. (x.caller ≡ released) × Holds base own w'}
        (bind {P = λ m w'. (m ≡ released) × Holds base own w'}
          (bind (laws.oc_run_options_free-Holds base h o own served held)
            λ _ w₁ held₁. ensures (refl, held₁))
          λ m w₁ p. ensures p)
        λ x w₁ p. ensures p

  -- A callback that has started and a caller that waits for it.
  terminate_last :
      {o : ℕ} {w : World S}
      → Holds base (resource Kind.run_options_handle o ∷ own) w
      → Ensures
          (λ x w'. (x.caller ≡ released) × Holds base own w')
          (interleave c
            (the_runtime h)
            (call_terminate ∷ close_done ∷ receive_done ∷ free_options ∷ [])
            (record { options = o; callback = started; caller = waiting })
            w)
  unfolding interleave happen terminate_run
  terminate_last {o} held =
      bind
        {P = λ x w'.
          (x ≡ record { options = o; callback = terminated; caller = waiting })
          × Holds base (resource Kind.run_options_handle o ∷ own) w'}
        (bind
          {P = λ b w'. (b ≡ terminated) × Holds base (resource Kind.run_options_handle o ∷ own) w'}
          (bind (terminate-Holds o held) λ _ w₁ held₁. ensures (refl, held₁))
          λ b w₁ p. rw p.0 (ensures (refl, p.1)))
        λ x w₁ p. rw p.0 (free_last o ended p.1)

  -- From every state that can be reached, `finish` returns once both goroutines go on to their end,
  -- and the options are then released.
  pub finish-Released :
      {o : ℕ} {b : Callback} {m : Caller} {w : World S}
      → Watched base own o b m w
      → Ensures
          (λ x w'. (x.caller ≡ released) × Holds base own w')
          (interleave c (the_runtime h) finish (record { options = o; callback = b; caller = m }) w)
  unfolding interleave happen terminate_run release_options
  finish-Released (in_run not_begun held) = free_last _ stopped held
  finish-Released (in_run (begun begun_started) held) = terminate_last held
  finish-Released (in_run (begun begun_terminated) held) = free_last _ ended held
  finish-Released (in_run (begun begun_ended) held) = free_last _ ended held
  finish-Released (in_wait begun_started held) = terminate_last held
  finish-Released (in_wait begun_terminated held) = free_last _ ended held
  finish-Released (in_wait begun_ended held) = free_last _ ended held
  finish-Released (in_release quiet_stopped held) = free_last _ stopped held
  finish-Released (in_release quiet_ended held) = free_last _ ended held
  finish-Released (at_end quiet_stopped held) = ensures (refl, held)
  finish-Released (at_end quiet_ended held) = ensures (refl, held)
