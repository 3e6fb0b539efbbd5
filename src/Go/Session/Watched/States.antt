-- ===== src/Go/Session/Watched/States.antt =====
-- The states that a watcher can reach, what is live in them, and the events that call nothing.
use onnxcraft.Common.{ℕ, List, ◌∷◌}
use onnxcraft.Native.Ledger.{Kind, Resource, resource}
use onnxcraft.Native.Machine.{World}
use onnxcraft.Native.Rules.{Holds}
use onnxcraft.Go.Session.Watch.{
  Callback, armed, stopped, started, terminated, ended, Caller, using, waiting, releasing, released,
  Watch, begin, close, finish_from, receive,
}

-- The callback has ended, or never starts.
pub data Quiet : Callback → Type 0 where
  quiet_stopped : Quiet stopped
  quiet_ended : Quiet ended

-- The callback is at work, or has ended.
pub data Begun : Callback → Type 0 where
  begun_started : Begun started
  begun_terminated : Begun terminated
  begun_ended : Begun ended

pub data Unstopped : Callback → Type 0 where
  not_begun : Unstopped armed
  begun : {b : Callback} → Begun b → Unstopped b

-- The states that can be reached, and what is live in them.
pub data Watched {S : Type 0} (base own : List Resource)
    : ℕ → Callback → Caller → World S → Type 0 where
  in_run :
      {o : ℕ} {b : Callback} {w : World S}
      → Unstopped b
      → Holds base (resource Kind.run_options_handle o ∷ own) w
      → Watched base own o b using w
  in_wait :
      {o : ℕ} {b : Callback} {w : World S}
      → Begun b
      → Holds base (resource Kind.run_options_handle o ∷ own) w
      → Watched base own o b waiting w
  in_release :
      {o : ℕ} {b : Callback} {w : World S}
      → Quiet b
      → Holds base (resource Kind.run_options_handle o ∷ own) w
      → Watched base own o b releasing w
  at_end :
      {o : ℕ} {b : Callback} {w : World S}
      → Quiet b
      → Holds base own w
      → Watched base own o b released w

abbrev pub IsWatched : {S : Type 0} → List Resource → List Resource → Watch → World S → Type 0
IsWatched base own x w = Watched base own x.options x.callback x.caller w

pub Begun-begin : {b : Callback} → Begun b → Begun (begin b)
Begun-begin begun_started = begun_started
Begun-begin begun_terminated = begun_terminated
Begun-begin begun_ended = begun_ended

pub Begun-close : {b : Callback} → Begun b → Begun (close b)
Begun-close begun_started = begun_started
Begun-close begun_terminated = begun_ended
Begun-close begun_ended = begun_ended

module _ {S : Type 0} {base own : List Resource} {o : ℕ} where
  pub begin-Watched :
      {b : Callback} {m : Caller} {w : World S}
      → Watched base own o b m w
      → Watched base own o (begin b) m w
  begin-Watched (in_run not_begun held) = in_run (begun begun_started) held
  begin-Watched (in_run (begun b) held) = in_run (begun (Begun-begin b)) held
  begin-Watched (in_wait b held) = in_wait (Begun-begin b) held
  begin-Watched (in_release quiet_stopped held) = in_release quiet_stopped held
  begin-Watched (in_release quiet_ended held) = in_release quiet_ended held
  begin-Watched (at_end quiet_stopped held) = at_end quiet_stopped held
  begin-Watched (at_end quiet_ended held) = at_end quiet_ended held

  pub close-Watched :
      {b : Callback} {m : Caller} {w : World S}
      → Watched base own o b m w
      → Watched base own o (close b) m w
  close-Watched (in_run not_begun held) = in_run not_begun held
  close-Watched (in_run (begun b) held) = in_run (begun (Begun-close b)) held
  close-Watched (in_wait b held) = in_wait (Begun-close b) held
  close-Watched (in_release quiet_stopped held) = in_release quiet_stopped held
  close-Watched (in_release quiet_ended held) = in_release quiet_ended held
  close-Watched (at_end quiet_stopped held) = at_end quiet_stopped held
  close-Watched (at_end quiet_ended held) = at_end quiet_ended held

  pub finish_from-Watched :
      {b : Callback} {m : Caller} {w : World S}
      → Watched base own o b m w
      → let x = finish_from b m in Watched base own o x.0 x.1 w
  finish_from-Watched (in_run not_begun held) = in_release quiet_stopped held
  finish_from-Watched (in_run (begun begun_started) held) = in_wait begun_started held
  finish_from-Watched (in_run (begun begun_terminated) held) = in_wait begun_terminated held
  finish_from-Watched (in_run (begun begun_ended) held) = in_wait begun_ended held
  finish_from-Watched (in_wait b held) = in_wait b held
  finish_from-Watched (in_release q held) = in_release q held
  finish_from-Watched (at_end q held) = at_end q held

  pub receive-Watched :
      {b : Callback} {m : Caller} {w : World S}
      → Watched base own o b m w
      → Watched base own o b (receive b m) w
  receive-Watched (in_run not_begun held) = in_run not_begun held
  receive-Watched (in_run (begun begun_started) held) = in_run (begun begun_started) held
  receive-Watched (in_run (begun begun_terminated) held) = in_run (begun begun_terminated) held
  receive-Watched (in_run (begun begun_ended) held) = in_run (begun begun_ended) held
  receive-Watched (in_wait begun_started held) = in_wait begun_started held
  receive-Watched (in_wait begun_terminated held) = in_wait begun_terminated held
  receive-Watched (in_wait begun_ended held) = in_release quiet_ended held
  receive-Watched (in_release quiet_stopped held) = in_release quiet_stopped held
  receive-Watched (in_release quiet_ended held) = in_release quiet_ended held
  receive-Watched (at_end quiet_stopped held) = at_end quiet_stopped held
  receive-Watched (at_end quiet_ended held) = at_end quiet_ended held
