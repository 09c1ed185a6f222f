-- ===== src/Daemon/Exec.antt =====
-- `handle_exec` and `handle_conn` of src/daemon.rs. The logging is left out; the texts of errors
-- are a function of what they report.
pub mod Answer
use shell_proxy.Prelude.{
  ℕ, List, [], ◌∷◌, ◌++◌, map, Option, none, some, Bool, true, false, Result, ok, err, Text,
}
use shell_proxy.Proto.Frame.{
  ExecRequest, ServeExec, ExecFrame, exec, stdin_data, stdin_eof, signal, ping, ExitReport, Pong,
  EventFrame, exit, pong, internal_error_code,
}
use shell_proxy.Proto.Session.{SessionNameError, SessionId, parse, default_name}
use shell_proxy.Remote.Engine.{OutputEvent, ExecOutcome, out}
use shell_proxy.Daemon.Shared.{
  HostConn, SessionKey, Shared, ConnectError, Contact, Contacted, get_or_connect, cwd_of,
  get_session, set_cwd, evict,
}
use shell_proxy.Daemon.Route.{StdinEvent, Received, Lanes, frame_reader}
use shell_proxy.Daemon.Control.{Failed, Turn, begun, deadline_of, forward, Controlled, control_loop}

pub data Problem : Type 0 where
  invalid_session : SessionNameError → Problem
  no_connection : ConnectError → Problem
  run_failed : Failed → Problem

-- What happens around one execution: the reads of the client's connection, what the other tasks do
-- while this one waits for its session, nothing where the lock of the session is never given up, and
-- while it runs, the schedule of the control loop, the
-- outputs that the bridge still forwards behind it, and whether the connection is closed then.
pub record World : Type 0 where
  pub pid : ℕ
  pub error_text : Problem → Text
  pub deadline_after : ℕ → Option ℕ
  pub contact : Contact
  pub while_queued : Shared → Option Shared
  pub reads : List (Received × Bool)
  pub schedule : List Turn
  pub late : List OutputEvent
  pub while_running : Shared → Shared
  pub closed_at_end : Bool

-- What one request leads to: the frames for the client, the request to sp-serve with its input,
-- and the tables.
pub record Handled : Type 0 where
  pub sent : List EventFrame
  pub served : Option ServeExec
  pub stdin : List StdinEvent
  pub tables : Shared

abbrev pub error_report : Text → ExitReport
error_report msg = record {
  code = internal_error_code;
  cwd = none;
  error = some msg;
  timed_out = false;
}

abbrev pub refused : World → Problem → Shared → Handled
refused w p s = record {
  sent = exit (error_report (w.error_text p)) ∷ [];
  served = none;
  stdin = [];
  tables = s;
}

abbrev pub or_else : Option Text → Option Text → Option Text
or_else (some cwd) other = some cwd
or_else none other = other

abbrev pub or_default : Option Text → Text
or_default none = default_name
or_default (some name) = name

abbrev pub serve_request : ExecRequest → SessionId → Option Text → ServeExec
serve_request req session start_cwd = record {
  session = session.name;
  command = req.command;
  args = req.args;
  cwd = start_cwd;
  timeout_ms = req.timeout_ms;
}

abbrev pub is_failed : Result ExecOutcome Failed → Bool
is_failed (ok o) = false
is_failed (err e) = true

unfoldable pub evicted : World → Text → HostConn → Result ExecOutcome Failed → Shared → Shared
unfolding evict
evicted w host conn r s = record s { hosts = evict host conn (is_failed r) w.closed_at_end s.hosts }

unfoldable pub moved : SessionKey → Option Text → Shared → Shared
unfolding set_cwd
moved key none s = s
moved key (some cwd) s = record s { sessions = set_cwd key cwd s.sessions }

-- The report, and the session's new directory.
unfoldable pub reported :
    World → SessionKey → Result ExecOutcome Failed → Shared → ExitReport × Shared
unfolding moved
reported w key (ok o) s = (
  record { code = o.exit_code; cwd = o.new_cwd; error = none; timed_out = o.timed_out },
  moved key o.new_cwd s,
)
reported w key (err e) s = (error_report (w.error_text (run_failed e)), s)

abbrev pub closing :
    World → List EventFrame → ServeExec → List StdinEvent → ExitReport × Shared → Handled
closing w frames sreq input (r, s) = record {
  sent = frames ++ (map forward w.late ++ exit r ∷ []);
  served = some sreq;
  stdin = input;
  tables = s;
}

-- Behind the control loop, which may not have ended yet.
unfoldable pub finish :
    World
    → SessionKey
    → HostConn
    → ServeExec
    → List StdinEvent
    → Shared
    → Controlled
    → Option Handled
unfolding evicted reported
finish w key conn sreq input s (c, none) = none
finish w key conn sreq input s (c, some r) = some (
    closing w c.frames sreq input
      (reported w key r (evicted w key.host conn r (w.while_running s))))

-- With the lock of the session, and the tables as they are then.
unfoldable pub run_locked : World → ExecRequest → SessionId → HostConn → Shared → Option Handled
unfolding cwd_of frame_reader control_loop finish
run_locked w req session conn mine =
    let key : SessionKey = record { host = req.host; session = session } in
    let start_cwd = or_else req.cwd (cwd_of key mine.sessions) in
    let lanes = frame_reader w.reads (record { stdin_lane = []; ctrl_lane = [] }) in
    finish w key conn (serve_request req session start_cwd) lanes.stdin_lane mine (
      control_loop w.pid (deadline_of w.deadline_after req.timeout_ms) req.timeout_ms w.schedule
        (begun lanes.ctrl_lane))

-- The wait for the lock of the session has no limit.
abbrev pub once_locked : Option Shared → (Shared → Option Handled) → Option Handled
once_locked none next = none
once_locked (some mine) next = next mine

unfoldable pub execute : World → ExecRequest → SessionId → HostConn → Shared → Option Handled
unfolding get_session run_locked
execute w req session conn s =
    let key : SessionKey = record { host = req.host; session = session } in
    once_locked (w.while_queued (record s { sessions = get_session key s.sessions }))
      (run_locked w req session conn)

unfoldable pub connected_or : World → ExecRequest → SessionId → Contacted → Option Handled
unfolding execute
connected_or w req session (err e, s) = some (refused w (no_connection e) s)
connected_or w req session (ok conn, s) = execute w req session conn s

unfoldable pub named_or :
    World → ExecRequest → Shared → Result SessionId SessionNameError → Option Handled
unfolding get_or_connect connected_or
named_or w req s (err e) = some (refused w (invalid_session e) s)
named_or w req s (ok session) = connected_or w req session (get_or_connect w.contact req.host s)

unfoldable pub handle_exec : World → ExecRequest → Shared → Option Handled
unfolding parse named_or
handle_exec w req s = named_or w req s (parse (or_default req.session))

-- Frames in front of those of the execution.
abbrev pub behind : List EventFrame → Option Handled → Option Handled
behind front none = none
behind front (some h) = some (record h { sent = front ++ h.sent })

-- One connection: pings are answered until a request comes, which gets the rest of the reads.
unfoldable pub handle_conn : World → List (Received × Bool) → Shared → Option Handled
unfolding handle_exec
handle_conn w [] s = some (record { sent = []; served = none; stdin = []; tables = s })
handle_conn w ((ok none, o) ∷ rs) s =
    some (record { sent = []; served = none; stdin = []; tables = s })
handle_conn w ((err e, o) ∷ rs) s =
    some (record { sent = []; served = none; stdin = []; tables = s })
handle_conn w ((ok (some ping), o) ∷ rs) s =
    behind (pong (record { pid = w.pid }) ∷ []) (handle_conn w rs s)
handle_conn w ((ok (some (exec req)), o) ∷ rs) s = handle_exec (record w { reads = rs }) req s
handle_conn w ((ok (some (stdin_data d)), o) ∷ rs) s = handle_conn w rs s
handle_conn w ((ok (some stdin_eof), o) ∷ rs) s = handle_conn w rs s
handle_conn w ((ok (some (signal x)), o) ∷ rs) s = handle_conn w rs s
