-- ===== src/Journey/Tests.antt =====
-- A run of crates/sp-serve/src/serve.rs at concrete inputs, and its theorems there.
use shell_proxy.Prelude.{
  ℕ, ◌≡◌, refl, subst, pos, List, [], ◌∷◌, ◌++◌, none, some, ok, codes, true, false, arith,
}
use shell_proxy.Proto.Frame.{Bytes, EventFrame, stdout, exit, ExitReport, ServeExec, exec}
use shell_proxy.Proto.Tests.{events, report-ReadsBack, pong-ReadsBack}
use shell_proxy.Proto.Session.{is_allowed}
use shell_proxy.Serve.Pipe.{bytes}
use shell_proxy.Serve.State.{System}
use shell_proxy.Serve.Watch.{exit as exited_with, exited}
use shell_proxy.Serve.Output.{
  new_output, Poll, poll_out, poll_err, poll_writer, polls, Tick, task, branch, out_ended,
  err_ended, drain_pumps, flush_queue, flushed,
}
use shell_proxy.Serve.Output.Pumps.{content, of_stdout, of_stderr, bytes_of}
use shell_proxy.Serve.Output.Whole.{all_frames, drain_pumps-content}
use shell_proxy.Serve.Execute.{
  Round, collected, Closing, Served, Child, World, execute, run, arrived,
}
use shell_proxy.Serve.Execute.Frames.{IsServed}
use shell_proxy.Serve.Execute.Ends.{until_exit, closing_at, execute-IsServed}
use shell_proxy.Serve.Execute.Answer.{IsHonest, run-IsHonest}
use shell_proxy.Remote.Engine.{ChanEvent, data_bytes, log_bytes}
use shell_proxy.Remote.Engine.Report.{chunks_of}
use shell_proxy.Proto.Decoder.RoundTrip.{Encodes}
use shell_proxy.Proto.Frame.{encode_event_frame}
use shell_proxy.Journey.{IsSmall, Arrives, execute-Encodes, execute-wait}

abbrev hi : Bytes
hi = 104 ∷ 105 ∷ []

-- Standard output brings `hi`, and standard error an end.
abbrev shell : Child
shell = record { has_id = true; out_pipe = bytes hi ∷ []; err_pipe = [] }

abbrev limit : ℕ
limit = 100000

abbrev machine : System
machine = record {
  home = some (codes "h");
  pid = codes "7";
  readable = true;
  creates_dir = true;
  sets_mode = true;
  opens = true;
  while_writing = [];
  writes = true;
  renames = true;
  removes = true;
}

abbrev request : ServeExec
request = record {
  session = codes "s";
  command = codes "echo";
  args = [];
  cwd = none;
  timeout_ms = none;
}

abbrev two_turns : List Poll
two_turns = poll_out ∷ poll_out ∷ poll_err ∷ []

abbrev last_round : Round
last_round = record { before = two_turns; now = 10; sel = exited_with (exited 3) }

-- The end of both pumps is looked at.
abbrev drained_in : List Tick
drained_in =
    task poll_out ∷ branch 20 out_ended ∷ task (poll_writer true) ∷ branch 20 err_ended ∷ []

abbrev closing : Closing
closing = record {
  kill_at = 11;
  drain_at = 12;
  ticks = drained_in;
  cwd = collected (bytes (47 ∷ 0 ∷ []) ∷ []);
  state = collected [];
  writes = [];
  exit_written = flushed;
}

abbrev report_3 : ExitReport
report_3 = record { code = pos 3; cwd = some (codes "/"); error = none; timed_out = false }

sample_run :
    execute limit 0 machine request shell (last_round ∷ []) closing []
    ≡ some record { frames = stdout hi ∷ exit report_3 ∷ []; files = [] ∷ []; result = ok tt }
unfolding execute
sample_run = refl

execute-IsServed_example :
    (v : Served) × (execute limit 0 machine request shell
        (until_exit [] last_round)
        (closing_at limit drained_in closing)
        []
      ≡ some v)
    × IsServed shell.out_pipe shell.err_pipe v
execute-IsServed_example =
    execute-IsServed limit 0 machine request shell [] last_round (exited 3) drained_in closing []
      refl (tt, λ e. cc)

drain_pumps-content_example :
    (bytes_of of_stdout (
        all_frames limit 12 drained_in []
          (polls two_turns (new_output shell.out_pipe shell.err_pipe)))
      ≡ content shell.out_pipe)
    × (bytes_of of_stderr (
          all_frames limit 12 drained_in []
            (polls two_turns (new_output shell.out_pipe shell.err_pipe)))
        ≡ content shell.err_pipe)
unfolding drain_pumps polls flush_queue
drain_pumps-content_example =
    drain_pumps-content limit 12 shell.out_pipe shell.err_pipe two_turns drained_in [] refl refl
      refl

-- No directory is reported, and the stand-in for JSON can write the report.
abbrev quiet_closing : Closing
quiet_closing = record closing { cwd = collected [] }

abbrev quiet_report : ExitReport
quiet_report = record report_3 { cwd = none }

abbrev quiet_run : Served
quiet_run = record { frames = stdout hi ∷ exit quiet_report ∷ []; files = [] ∷ []; result = ok tt }

last-IsSmall :
    (outs : List EventFrame) (r : ExitReport)
    → quiet_run.frames ≡ outs ++ exit r ∷ []
    → IsSmall events.report r
last-IsSmall [] r h = cc
last-IsSmall (f ∷ []) r h =
    let same : quiet_report ≡ r = cc in
    subst (IsSmall events.report) same (3 ∷ 0 ∷ [], refl, omega arith)
last-IsSmall (f ∷ g ∷ []) r h = cc
last-IsSmall (f ∷ g ∷ x ∷ xs) r h = cc

-- The run's frames have encodings, as an instance of the lemma.
quiet_wires : (wires : List Bytes) × Encodes events quiet_run.frames wires
unfolding execute
quiet_wires =
    execute-Encodes events limit 0 machine request shell (last_round ∷ []) quiet_closing []
      quiet_run (λ p. (p.pid ∷ [], refl, omega arith)) refl refl last-IsSmall

abbrev wires : List Bytes
wires = (0x81 ∷ 2 ∷ 0 ∷ 0 ∷ 0 ∷ 104 ∷ 105 ∷ []) ∷ (0x83 ∷ 2 ∷ 0 ∷ 0 ∷ 0 ∷ 3 ∷ 0 ∷ []) ∷ []

-- The bytes of both frames in three chunks, with a line of the log.
abbrev channel : List ChanEvent
channel =
    data_bytes (0x81 ∷ 2 ∷ [])
    ∷ log_bytes (104 ∷ 10 ∷ [])
    ∷ data_bytes (0 ∷ 0 ∷ 0 ∷ 104 ∷ 105 ∷ 0x83 ∷ [])
    ∷ data_bytes (2 ∷ 0 ∷ 0 ∷ 0 ∷ 3 ∷ 0 ∷ [])
    ∷ []

execute-wait_example :
    (r : ExitReport) × Arrives events shell.out_pipe shell.err_pipe quiet_run.frames channel r
unfolding execute encode_event_frame chunks_of
execute-wait_example =
    execute-wait events limit 0 machine request shell (last_round ∷ []) quiet_closing [] quiet_run
      wires channel report-ReadsBack pong-ReadsBack refl refl
      (refl, omega arith, (refl, omega arith, tt)) refl

abbrev world : ServeExec → World
world req = record {
  limit = limit;
  started = 0;
  sys = machine;
  shows = record { name_error = λ e. codes "bad name"; state_error = λ e. codes "no home" };
  handlers = ok tt;
  first = arrived (some (exec req));
  spawn = λ r s. ok shell;
  rounds = last_round ∷ [];
  closing = closing;
}

bad_session :
    run (world (record request { session = codes "a/b" })) []
    ≡ some (
      exit (record {
        code = pos 254;
        cwd = none;
        error = some (codes "invalid session name: bad name");
        timed_out = false;
      })
          ∷ [],
      pos 0,
    )
unfolding run is_allowed
bad_session = refl

run-IsHonest_example : IsHonest (stdout hi ∷ exit report_3 ∷ []) (pos 0)
unfolding run is_allowed
run-IsHonest_example = run-IsHonest (world request) [] (stdout hi ∷ exit report_3 ∷ []) (pos 0) refl
