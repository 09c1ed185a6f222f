-- ===== src/Client/Run.antt =====
-- The loop of `run` in src/client.rs: standard input, the frames of the daemon and the signals of
-- the console, each turn at an instant in milliseconds.
pub mod Session
pub mod Ending
use shell_proxy.Prelude.{
  ℕ, ◌-◌, ◌≡◌, Bool, true, false, List, [], ◌∷◌, ◌++◌, Option, none, some, ltb, if◌then◌else◌,
  Result, ok, err, ℤ, pos, Text,
}
use shell_proxy.Proto.Frame.{
  Bytes, Error, Signal, int, term, kill, hup, ExecRequest, ExitReport, ExecFrame, exec, stdin_data,
  stdin_eof, signal, EventFrame, stdout, stderr, exit, pong,
}

abbrev pub force_exit_window : ℕ
force_exit_window = 1000

pub record RunReport : Type 0 where
  pub code : ℤ
  pub cwd : Option Text
  pub timed_out : Bool
  pub error : Option Text

-- `impl From<ExitReport> for RunReport`.
abbrev pub from_exit : ExitReport → RunReport
from_exit r = record { code = r.code; cwd = r.cwd; timed_out = r.timed_out; error = r.error }

abbrev pub forced : RunReport
forced = record { code = pos 130; cwd = none; timed_out = false; error = none }

pub data Failure : Type 0 where
  proto : Error → Failure
  io : Text → Failure
  closed_before_exit : Failure

abbrev pub Frames : Type 0
Frames = List (ExecFrame ExecRequest)

-- The variables of the loop, with what was written so far to the daemon and to the two outputs.
pub record Run : Type 0 where
  pub stdin_open : Bool
  pub signals_open : Bool
  pub last_int : Option ℕ
  pub sent : Frames
  pub out : Bytes
  pub errs : Bytes

-- What `select!` hands to the loop. A read of standard input brings bytes, its end, or an error.
pub data Event : Type 0 where
  input : Bytes → Event
  input_end : Event
  input_broken : Event
  frame : Result (Option EventFrame) Error → Event
  sig : Option Signal → Event

pub data Turn : Type 0 where
  go_on : Run → Turn
  finish : Run → RunReport → Turn
  fail : Run → Failure → Turn

-- `?` on the writes of a turn: `none` is their success, with the state behind them.
abbrev pub tried : Option Failure → Run → Run → Turn
tried none w v = go_on v
tried (some e) w v = fail w e

abbrev pub send : ExecFrame ExecRequest → Run → Run
send f w = record w { sent = w.sent ++ f ∷ [] }

-- `last_int.is_some_and(|t| now.duration_since(t) < FORCE_EXIT_WINDOW)`
abbrev pub is_recent : Option ℕ → ℕ → Bool
is_recent none now = false
is_recent (some t) now = ltb (now - t) force_exit_window

-- The arm of `Err(_)`: the end is sent, and a failure of that is ignored.
abbrev pub give_up_input : Option Failure → Run → Run
give_up_input none w = record (send stdin_eof w) { stdin_open = false }
give_up_input (some e) w = record w { stdin_open = false }

-- One turn at `now`; `wrote` says how its writes went.
unfoldable pub turn : ℕ → Option Failure → Event → Run → Turn
turn now wrote (input d) w = tried wrote w (send (stdin_data d) w)
turn now wrote input_end w = tried wrote w (record (send stdin_eof w) { stdin_open = false })
turn now wrote input_broken w = go_on (give_up_input wrote w)
turn now wrote (frame (err e)) w = fail w (proto e)
turn now wrote (frame (ok none)) w = fail w closed_before_exit
turn now wrote (frame (ok (some (stdout d)))) w = tried wrote w (record w { out = w.out ++ d })
turn now wrote (frame (ok (some (stderr d)))) w = tried wrote w (record w { errs = w.errs ++ d })
turn now wrote (frame (ok (some (exit r)))) w = finish w (from_exit r)
turn now wrote (frame (ok (some (pong p)))) w = go_on w
turn now wrote (sig none) w = go_on (record w { signals_open = false })
turn now wrote (sig (some int)) w =
    if is_recent w.last_int now
    then finish w forced
    else tried wrote w (record (send (signal int) w) { last_int = some now })
turn now wrote (sig (some s)) w = tried wrote w (send (signal s) w)

-- The state in front of the loop: the request is sent.
abbrev pub start : ExecRequest → Run
start req = record {
  stdin_open = true;
  signals_open = true;
  last_int = none;
  sent = exec req ∷ [];
  out = [];
  errs = [];
}

-- The guards of the branches of `select!`.
abbrev pub IsEnabled : Event → Run → Type 0
IsEnabled (input d) w = w.stdin_open ≡ true
IsEnabled input_end w = w.stdin_open ≡ true
IsEnabled input_broken w = w.stdin_open ≡ true
IsEnabled (frame f) w = Unit {0}
IsEnabled (sig s) w = w.signals_open ≡ true

pub data Loop : Run → Run → Type 0 where
  here : {w : Run} → Loop w w
  next :
      {w v u : Run} (now : ℕ) (wrote : Option Failure) (e : Event)
      → Loop w v
      → IsEnabled e v
      → turn now wrote e v ≡ go_on u
      → Loop w u
