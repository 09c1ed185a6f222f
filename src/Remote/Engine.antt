-- ===== src/Remote/Engine.antt =====
-- `ExecChannel::wait` of src/remote.rs: the control loop over the events of an exec channel.
pub mod Report
use shell_proxy.Prelude.{
  ℕ, ◌≡◌, List, [], ◌∷◌, ◌++◌, Option, none, some, Result, ok, err, Text, Bool, ℤ,
}
use shell_proxy.Proto.Frame.{
  Bytes, Error, ExitReport, Pong, EventFrame, stdout, stderr, exit, pong, EventJson,
}
use shell_proxy.Remote.ServeLog.{ServeLog, empty_log, feed, flush}
use shell_proxy.Proto.Decoder.{EventDecoder, new, push}

pub data ChanEvent : Type 0 where
  data_bytes : Bytes → ChanEvent
  log_bytes : Bytes → ChanEvent
  status : ℕ → ChanEvent
  channel_closed : ChanEvent

pub data OutputEvent : Type 0 where
  out : Bytes → OutputEvent
  errs : Bytes → OutputEvent

pub record ExecOutcome : Type 0 where
  pub exit_code : ℤ
  pub new_cwd : Option Text
  pub timed_out : Bool

pub data Failure : Type 0 where
  undecodable : Error → Failure
  no_report : Option ℕ → Failure

-- The variables of the loop, with what was sent to the output.
pub record Wait : Type 0 where
  pub decoder : EventDecoder
  pub output : List OutputEvent
  pub serve_log : ServeLog
  pub serve_status : Option ℕ

abbrev pub start : Wait
start = record { decoder = new; output = []; serve_log = empty_log; serve_status = none }

abbrev pub send : OutputEvent → Wait → Wait
send e w = record w { output = w.output ++ e ∷ [] }

-- `for frame in frames`, up to the first exit report.
unfoldable pub take_frames : List EventFrame → Wait → Wait × Option ExitReport
take_frames [] w = (w, none)
take_frames (stdout d ∷ fs) w = take_frames fs (send (out d) w)
take_frames (stderr d ∷ fs) w = take_frames fs (send (errs d) w)
take_frames (exit r ∷ fs) w = (w, some r)
take_frames (pong p ∷ fs) w = take_frames fs w

abbrev pub from_report : ExitReport → ExecOutcome
from_report r = record { exit_code = r.code; new_cwd = r.cwd; timed_out = r.timed_out }

abbrev pub Waited : Type 0
Waited = Wait × Result ExecOutcome Failure

abbrev pub after_frames : Wait × Option ExitReport → (Wait → Waited) → Waited
after_frames (w, none) next = next w
after_frames (w, some r) next = (w, ok (from_report r))

abbrev pub after_push :
    Wait → EventDecoder × Result (List EventFrame) Error → (Wait → Waited) → Waited
after_push w (d, err e) next = (record w { decoder = d }, err (undecodable e))
after_push w (d, ok fs) next = after_frames (take_frames fs (record w { decoder = d })) next

-- The loop over the events; the end of the list is the end of the reader task.
unfoldable pub wait_loop : EventJson → List ChanEvent → Wait → Waited
unfolding take_frames feed
wait_loop j [] w = (w, err (no_report w.serve_status))
wait_loop j (channel_closed ∷ es) w = (w, err (no_report w.serve_status))
wait_loop j (data_bytes b ∷ es) w = after_push w (push j w.decoder b) (wait_loop j es)
wait_loop j (log_bytes b ∷ es) w = wait_loop j es (record w { serve_log = feed w.serve_log b })
wait_loop j (status s ∷ es) w = wait_loop j es (record w { serve_status = some s })

abbrev pub flushed : Waited → Waited
flushed (w, result) = (record w { serve_log = flush w.serve_log }, result)

unfoldable pub wait : EventJson → List ChanEvent → Waited
unfolding wait_loop flush
wait j es = flushed (wait_loop j es start)
