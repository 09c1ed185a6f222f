-- ===== src/Serve/Execute.antt =====
-- `run`, `inner` and `execute` of crates/sp-serve/src/serve.rs around the parts of Serve. What the
-- environment does is an argument: the frame that comes first, what the start of bash gives, the
-- rounds of the main loop, and what happens behind it.
pub mod Frames
pub mod Ends
pub mod Answer
use shell_proxy.Prelude.{
  ℕ, ◌++◌, ◌≡◌, Bool, true, false, List, [], ◌∷◌, Option, none, some, if◌then◌else◌, Result, ok,
  err, Text, codes, from_utf8_lossy, ℤ, pos,
}
use shell_proxy.Proto.Frame.{
  Bytes, Error, EventFrame, exit, ExecFrame, exec, stdin_data, stdin_eof, signal, ping, ServeExec,
  ExitReport, internal_error_code,
}
use shell_proxy.Proto.Session.{SessionId, SessionNameError, parse}
use shell_proxy.Serve.Pipe.{Got, read_pipe, cwd_cap, state_cap}
use shell_proxy.Serve.State.{System, Files, StateError, load_state, save_state}
use shell_proxy.Serve.Watch.{
  Sel, Watch, Turn, go_on, leave, bail, Bail, turn, start, make_up, report_code, ExitStatus,
}
use shell_proxy.Serve.Output.{
  Output, new_output, Poll, polls, Tick, Drained, drain_pumps, abort_pumps, WriteEnd, flushed,
  refused, never, flush_queue,
}

-- What ends a run without a report.
pub data Fatal : Type 0 where
  no_handlers : Text → Fatal
  not_exec : ExecFrame ServeExec → Fatal
  stdin_closed : Fatal
  bad_exec : Error → Fatal
  exec_late : Fatal
  already_reaped : Fatal
  bailed : Bail → Fatal
  exit_unwritten : Fatal

-- A round of the main loop: the turns of the tasks in front of it, its instant and its branch.
pub record Round : Type 0 where
  pub before : List Poll
  pub now : ℕ
  pub sel : Sel

-- A task that reads a report pipe: its reads, its failure, or no end within the grace.
pub data Collected : Type 0 where
  collected : List Got → Collected
  task_failed : Text → Collected
  late : Collected

-- What happens behind the main loop.
pub record Closing : Type 0 where
  pub kill_at : ℕ
  pub drain_at : ℕ
  pub ticks : List Tick
  pub cwd : Collected
  pub state : Collected
  pub writes : List WriteEnd
  pub exit_written : WriteEnd

-- A run: the frames on standard output, the states of the files, and how `inner` returns.
pub record Served : Type 0 where
  pub frames : List EventFrame
  pub files : List Files
  pub result : Result (Unit {0}) Fatal

-- The main loop up to the end of the schedule.
abbrev pub Looped : Type 0
Looped = Output × Option Turn

abbrev pub after_turn : Output → Turn → (Watch → Looped) → Looped
after_turn o (go_on w) next = next w
after_turn o (leave w s) next = (o, some (leave w s))
after_turn o (bail w b) next = (o, some (bail w b))

unfoldable pub main_loop : ℕ → List Round → Watch → Output → Looped
unfolding turn polls
main_loop limit [] w o = (o, none)
main_loop limit (r ∷ rs) w o =
    after_turn (polls r.before o) (turn limit r.now r.sel w)
      (λ w. main_loop limit rs w (polls r.before o))

unfoldable pub reported : ℕ → Collected → Option Bytes
unfolding read_pipe
reported cap (collected reads) = read_pipe cap reads
reported cap (task_failed e) = none
reported cap late = none

abbrev pub text_of : Option Bytes → Option Text
text_of none = none
text_of (some bytes) = some (from_utf8_lossy bytes)

abbrev pub save : System → Text → Option Bytes → Files → List Files
save sys session (some state) fs = save_state sys session state fs
save sys session none fs = fs ∷ []

-- `write_exit`. It has no limit: a write that never ends gives nothing.
abbrev pub write_exit : WriteEnd → ExitReport → List EventFrame → List Files → Option Served
write_exit flushed r out files =
    some record { frames = out ++ exit r ∷ []; files = files; result = ok tt }
write_exit refused r out files =
    some record { frames = out; files = files; result = err exit_unwritten }
write_exit never r out files = none

-- `writer.await`, which has no limit either.
abbrev pub await_writer : WriteEnd → Option Served → Option Served
await_writer flushed next = next
await_writer refused next = next
await_writer never next = none

unfoldable pub closing_report : Watch → ExitStatus → Closing → ExitReport
unfolding report_code reported from_utf8_lossy
closing_report w s c = record {
  code = report_code w s;
  cwd = text_of (reported cwd_cap c.cwd);
  error = none;
  timed_out = w.timed_out;
}

-- Behind the drain: the queue is written out, then the report.
unfoldable pub finish :
    System → ServeExec → Watch → ExitStatus → Closing → Output → Files → Option Served
unfolding closing_report flush_queue reported save_state
finish sys req w s c o fs = await_writer (flush_queue c.writes o.queue).1 (
    write_exit c.exit_written (closing_report w s c) (o.written ++ (flush_queue c.writes o.queue).0)
      (save sys req.session (reported state_cap c.state) fs))

-- The router is aborted, and the pumps are where they made no progress.
abbrev pub stop_router : Output → Output
stop_router o = record o { pings = false }

abbrev pub after_drain : Drained → (Output → Option Served) → Option Served
after_drain (o, none) next = none
after_drain (o, some true) next = next o
after_drain (o, some false) next = next (abort_pumps o)

abbrev pub after_loop : ℕ → System → ServeExec → Closing → Files → Looped → Option Served
after_loop limit sys req c fs (o, none) = none
after_loop limit sys req c fs (o, some (go_on w)) = none
after_loop limit sys req c fs (o, some (bail w b)) =
    some record { frames = o.written; files = fs ∷ []; result = err (bailed b) }
after_loop limit sys req c fs (o, some (leave w s)) =
    after_drain (drain_pumps limit c.drain_at c.ticks (stop_router o))
      (λ o. finish sys req (make_up c.kill_at w.kill_deadline w) s c o fs)

-- A child: whether it still has an id, and what its two output pipes will bring.
pub record Child : Type 0 where
  pub has_id : Bool
  pub out_pipe : List Got
  pub err_pipe : List Got

-- `execute`; nothing, while the schedule is not at its end or a write never ends.
unfoldable pub execute :
    ℕ → ℕ → System → ServeExec → Child → List Round → Closing → Files → Option Served
unfolding main_loop start drain_pumps finish make_up
execute limit now sys req child rounds c fs =
    if child.has_id
    then after_loop limit sys req c fs
        (main_loop limit rounds (start limit now req) (new_output child.out_pipe child.err_pipe))
    else some record { frames = []; files = fs ∷ []; result = err already_reaped }

-- What the wait for the first frame comes to.
pub data First : Type 0 where
  arrived : Option (ExecFrame ServeExec) → First
  unreadable : Error → First
  timed_out_waiting : First

unfoldable pub first_request : First → Result ServeExec Fatal
first_request (arrived (some (exec req))) = ok req
first_request (arrived (some (stdin_data d))) = err (not_exec (stdin_data d))
first_request (arrived (some stdin_eof)) = err (not_exec stdin_eof)
first_request (arrived (some (signal s))) = err (not_exec (signal s))
first_request (arrived (some ping)) = err (not_exec ping)
first_request (arrived none) = err stdin_closed
first_request (unreadable e) = err (bad_exec e)
first_request timed_out_waiting = err exec_late

-- The texts of errors, which their `Display` gives.
pub record Shows : Type 0 where
  pub name_error : SessionNameError → Text
  pub state_error : StateError → Text

abbrev pub internal_error : Text → ExitReport
internal_error e = record {
  code = internal_error_code;
  cwd = none;
  error = some e;
  timed_out = false;
}

-- The environment of a run.
pub record World : Type 0 where
  pub limit : ℕ
  pub started : ℕ
  pub sys : System
  pub shows : Shows
  pub handlers : Result (Unit {0}) Text
  pub first : First
  pub spawn : ServeExec → Option Bytes → Result Child Text
  pub rounds : List Round
  pub closing : Closing

abbrev pub fatal : Files → Fatal → Served
fatal fs e = record { frames = []; files = fs ∷ []; result = err e }

module _ (world : World) (fs : Files) where
  -- A failure in front of the command goes out as a report.
  abbrev pub fail : Text → Text → Option Served
  fail what e = write_exit world.closing.exit_written (internal_error (what ++ e)) [] (fs ∷ [])

  abbrev pub with_child : ServeExec → Result Child Text → Option Served
  with_child req (err e) = fail (codes "spawn bash: ") e
  with_child req (ok child) =
      execute world.limit world.started world.sys req child world.rounds world.closing fs

  abbrev pub with_state : ServeExec → Result (Option Bytes) StateError → Option Served
  with_state req (err e) = fail (codes "session state: ") (world.shows.state_error e)
  with_state req (ok state) = with_child req (world.spawn req state)

  abbrev pub with_session : ServeExec → Result SessionId SessionNameError → Option Served
  with_session req (err e) = fail (codes "invalid session name: ") (world.shows.name_error e)
  with_session req (ok id) = with_state req (load_state world.sys req.session fs)

  abbrev pub with_request : Result ServeExec Fatal → Option Served
  with_request (err e) = some (fatal fs e)
  with_request (ok req) = with_session req (parse req.session)

  abbrev pub with_handlers : Result (Unit {0}) Text → Option Served
  with_handlers (err e) = some (fatal fs (no_handlers e))
  with_handlers (ok t) = with_request (first_request world.first)

unfoldable pub inner : World → Files → Option Served
unfolding execute parse load_state first_request
inner world fs = with_handlers world fs world.handlers

-- The exit code of the process.
abbrev pub exit_code : Result (Unit {0}) Fatal → ℤ
exit_code (ok t) = pos 0
exit_code (err e) = pos 1

unfoldable pub run : World → Files → Option (List EventFrame × ℤ)
unfolding inner
run world fs = elim (inner world fs) [ none ↦ none | some v ↦ some (v.frames, exit_code v.result) ]
