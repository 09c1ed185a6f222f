-- ===== src/Remote/Engine/Report.antt =====
-- From the frames that sp-serve encoded to what `ExecChannel::wait` of src/remote.rs gives.
use shell_proxy.Prelude.{
  ◌≡◌, refl, sym, ap, subst, List, [], ◌∷◌, ◌++◌, Option, none, some, Result, ok, err, >>=-eq-ok,
  concat, append_assoc, append-nil,
}
use shell_proxy.Proto.Frame.{
  Bytes, Error, ExitReport, EventFrame, stdout, stderr, exit, pong, EventJson, ReadsBack,
}
use shell_proxy.Proto.Decoder.{EventDecoder, push}
use shell_proxy.Proto.Decoder.Chunks.{feed}
use shell_proxy.Proto.Decoder.RoundTrip.{Encodes, feed-encode}
use shell_proxy.Remote.ServeLog.{feed as log_fed}
use shell_proxy.Remote.Engine.{
  ChanEvent, data_bytes, log_bytes, status, channel_closed, OutputEvent, out, errs, Wait, start,
  send, take_frames, from_report, Waited, after_frames, after_push, wait_loop, wait,
}

-- The chunks of standard output among the events, up to the end of the channel.
unfoldable pub chunks_of : List ChanEvent → List Bytes
chunks_of [] = []
chunks_of (channel_closed ∷ es) = []
chunks_of (data_bytes b ∷ es) = b ∷ chunks_of es
chunks_of (log_bytes b ∷ es) = chunks_of es
chunks_of (status s ∷ es) = chunks_of es

-- What the frames of a command send to the outputs, and the command's report, if it has one.
unfoldable pub outputs : List EventFrame → List OutputEvent
outputs [] = []
outputs (stdout d ∷ fs) = out d ∷ outputs fs
outputs (stderr d ∷ fs) = errs d ∷ outputs fs
outputs (exit r ∷ fs) = []
outputs (pong p ∷ fs) = outputs fs

unfoldable pub report : List EventFrame → Option ExitReport
report [] = none
report (stdout d ∷ fs) = report fs
report (stderr d ∷ fs) = report fs
report (exit r ∷ fs) = some r
report (pong p ∷ fs) = report fs

-- A run has sent these outputs and ended with this report.
abbrev pub IsReported : Waited → List OutputEvent → ExitReport → Type 0
IsReported (w, result) sent r = (w.output ≡ sent) × (result ≡ ok (from_report r))

-- The frames of a push, then the rest.
take_frames-IsReported :
    (fs gs : List EventFrame) (w : Wait) (next : Wait → Waited) (r : ExitReport)
    → report (fs ++ gs) ≡ some r
    → ((v : Wait)
        → v.decoder ≡ w.decoder
        → report gs ≡ some r
        → IsReported (next v) (v.output ++ outputs gs) r)
    → IsReported (after_frames (take_frames fs w) next) (w.output ++ outputs (fs ++ gs)) r
unfolding take_frames outputs report
take_frames-IsReported [] gs w next r h rest = rest w refl h
take_frames-IsReported (stdout d ∷ fs) gs w next r h rest =
    rw (sym (append_assoc w.output (out d ∷ []) (outputs (fs ++ gs))))
      (take_frames-IsReported fs gs (send (out d) w) next r h rest)
take_frames-IsReported (stderr d ∷ fs) gs w next r h rest =
    rw (sym (append_assoc w.output (errs d ∷ []) (outputs (fs ++ gs))))
      (take_frames-IsReported fs gs (send (errs d) w) next r h rest)
take_frames-IsReported (exit x ∷ fs) gs w next r h rest =
    let same : x ≡ r = cc in
    (sym (append-nil w.output), ap (λ (i : ExitReport). ok (from_report i)) same)
take_frames-IsReported (pong p ∷ fs) gs w next r h rest =
    take_frames-IsReported fs gs w next r h rest

after_push-IsReported :
    (q : EventDecoder × Result (List EventFrame) Error) (fs gs : List EventFrame) (w : Wait)
    (next : Wait → Waited) (r : ExitReport)
    → q.1 ≡ ok fs
    → report (fs ++ gs) ≡ some r
    → ((v : Wait)
        → v.decoder ≡ q.0
        → report gs ≡ some r
        → IsReported (next v) (v.output ++ outputs gs) r)
    → IsReported (after_push w q next) (w.output ++ outputs (fs ++ gs)) r
after_push-IsReported (d, err e) fs gs w next r pushed h rest = cc
after_push-IsReported (d, ok hs) fs gs w next r pushed h rest =
    let same : fs ≡ hs = cc in
    rw same (take_frames-IsReported hs gs (record w { decoder = d }) next r (rw same at h) rest)

no_frames : (fs : List EventFrame) (r : ExitReport) → fs ≡ [] → ¬ (report fs ≡ some r)
unfolding report
no_frames [] r e h = cc
no_frames (f ∷ fs) r e h = cc

module _ (j : EventJson) where
  wait_loop-IsReported :
      (es : List ChanEvent) (w : Wait) (fs : List EventFrame) (r : ExitReport)
      → feed j w.decoder (chunks_of es) ≡ ok fs
      → report fs ≡ some r
      → IsReported (wait_loop j es w) (w.output ++ outputs fs) r
  unfolding wait_loop chunks_of feed report
  wait_loop-IsReported [] w fs r fed h =
      let none_left : fs ≡ [] = cc in absurd (no_frames fs r none_left h)
  wait_loop-IsReported (channel_closed ∷ es) w fs r fed h =
      let none_left : fs ≡ [] = cc in absurd (no_frames fs r none_left h)
  wait_loop-IsReported (log_bytes b ∷ es) w fs r fed h =
      wait_loop-IsReported es (record w { serve_log = log_fed w.serve_log b }) fs r fed h
  wait_loop-IsReported (status s ∷ es) w fs r fed h =
      wait_loop-IsReported es (record w { serve_status = some s }) fs r fed h
  wait_loop-IsReported (data_bytes b ∷ es) w fs r fed h =
      let (f, pushed, rest) = >>=-eq-ok (push j w.decoder b).1 _ fed in
      let (g, more, last) = >>=-eq-ok (feed j (push j w.decoder b).0 (chunks_of es)) _ rest in
      let whole : f ++ g ≡ fs = cc in
      subst
        (λ (x : List EventFrame).
          IsReported (wait_loop j (data_bytes b ∷ es) w) (w.output ++ outputs x) r)
        whole
        (after_push-IsReported (push j w.decoder b) f g w (wait_loop j es) r pushed
          (subst (λ (x : List EventFrame). report x ≡ some r) (sym whole) h)
          (λ v same reported.
            wait_loop-IsReported es v g r
              (subst (λ (d : EventDecoder). feed j d (chunks_of es) ≡ ok g) (sym same) more)
              reported))

-- The frames of a command that sp-serve encoded, its exit report among them, none with a payload
-- above the receiver's limit, reach the daemon: however the channel cuts their bytes, and whatever
-- it puts between them of standard error and of the exit status, the outputs in front of the
-- report are forwarded in order and the outcome is the report's, provided that the JSON reader
-- gives back the reports and pongs that the JSON writer wrote.
pub wait-encode :
    (j : EventJson) (es : List ChanEvent) (frames : List EventFrame) (wires : List Bytes)
    (r : ExitReport)
    → ReadsBack j.report
    → ReadsBack j.pong
    → Encodes j frames wires
    → concat (chunks_of es) ≡ concat wires
    → report frames ≡ some r
    → IsReported (wait j es) (outputs frames) r
unfolding wait
wait-encode j es frames wires r hr hp encoded same reported =
    wait_loop-IsReported j es start frames r
      (feed-encode j frames wires (chunks_of es) hr hp encoded same) reported
