-- ===== src/Serve/Watch.antt =====
-- The main loop of `execute` in crates/sp-serve/src/serve.rs: control events, the exit of the
-- child, the timeout with its escalation, and the end of the writer. Instants are milliseconds of
-- a clock that represents none above `limit`; `sent` is the log of the signals for the group.
pub mod Escalation
pub mod Outcome
use shell_proxy.Prelude.{
  ℕ, ◌+◌, ◌*◌, ◌≤◌, ◌<◌, ◌≡◌, Bool, true, false, List, [], ◌∷◌, ◌++◌, Option, none, some, ltb, leb,
  if◌then◌else◌, ℤ, pos, Text,
}
use shell_proxy.Proto.Frame.{Signal, int, term, kill, hup, timeout_exit_code, ServeExec}

abbrev pub term_grace : ℕ
term_grace = 5000

-- `Instant::checked_add`.
unfoldable pub checked_add : ℕ → ℕ → ℕ → Option ℕ
checked_add limit at span = if leb (at + span) limit then some (at + span) else none

-- `std::process::ExitStatus` of a wait: a code, a signal, or neither.
pub data ExitStatus : Type 0 where
  exited : ℕ → ExitStatus
  signaled : ℕ → ExitStatus
  other : ExitStatus

unfoldable pub status_code : ExitStatus → ℤ
status_code (exited c) = pos c
status_code (signaled s) = pos (128 + s)
status_code other = pos 255

pub data Ctrl : Type 0 where
  signal : Signal → Ctrl
  closed : Ctrl
  bad : Text → Ctrl

-- What `select!` hands to the loop. A failed wait has its text.
pub data Sel : Type 0 where
  ctrl : Option Ctrl → Sel
  exit : ExitStatus → Sel
  exit_failed : Text → Sel
  timeout : Sel
  dead : Bool → Sel

-- The reasons with which `execute` bails out of the loop.
pub data Bail : Type 0 where
  transport_closed : Bail
  bad_frame : Text → Bail
  wait_on_child : Text → Bail
  daemon_vanished : Bail

abbrev pub Log : Type 0
Log = List (ℕ × Signal)

pub record Watch : Type 0 where
  pub term_deadline : Option ℕ
  pub kill_deadline : Option ℕ
  pub timed_out : Bool
  pub ctrl_open : Bool
  pub dead_done : Bool
  pub sent : Log

pub data Turn : Type 0 where
  go_on : Watch → Turn
  leave : Watch → ExitStatus → Turn
  bail : Watch → Bail → Turn

-- `kill_group` and `kill_group_raw`.
abbrev pub send : ℕ → Signal → Watch → Watch
send now sig w = record w { sent = w.sent ++ (now, sig) ∷ [] }

-- `req.timeout_ms.filter(|ms| *ms > 0)`
unfoldable pub positive : Option ℕ → Option ℕ
positive none = none
positive (some ms) = if ltb 0 ms then some ms else none

unfoldable pub first_deadline : ℕ → ℕ → Option ℕ → Option ℕ
first_deadline limit now none = none
first_deadline limit now (some ms) = checked_add limit now ms

-- The state in front of the loop.
unfoldable pub start : ℕ → ℕ → ServeExec → Watch
unfolding positive first_deadline checked_add
start limit now req = record {
  term_deadline = first_deadline limit now (positive req.timeout_ms);
  kill_deadline = none;
  timed_out = false;
  ctrl_open = true;
  dead_done = false;
  sent = [];
}

-- The escalation is armed, or made at once where the clock cannot hold its instant.
unfoldable pub arm_kill : ℕ → Option ℕ → Watch → Watch
arm_kill now (some at) w = record w { kill_deadline = some at }
arm_kill now none w = record (send now kill w) { kill_deadline = none }

-- The `Sel::Timeout` arm.
unfoldable pub on_timeout : ℕ → ℕ → Option ℕ → Watch → Watch
unfolding arm_kill checked_add
on_timeout limit now none w =
    arm_kill now (checked_add limit now term_grace)
      (record (send now term w) { timed_out = true; term_deadline = none })
on_timeout limit now (some at) w = record (send now kill w) {
  timed_out = true;
  kill_deadline = none;
}

-- One turn of the loop at the instant `now`.
unfoldable pub turn : ℕ → ℕ → Sel → Watch → Turn
unfolding on_timeout
turn limit now (ctrl (some (signal s))) w = go_on (send now s w)
turn limit now (ctrl (some closed)) w = bail (send now kill w) transport_closed
turn limit now (ctrl (some (bad e))) w = bail (send now kill w) (bad_frame e)
turn limit now (ctrl none) w = go_on (record w { ctrl_open = false })
turn limit now (exit s) w = leave w s
turn limit now (exit_failed e) w = bail w (wait_on_child e)
turn limit now timeout w = go_on (on_timeout limit now w.kill_deadline w)
turn limit now (dead true) w = bail (record (send now kill w) { dead_done = true }) daemon_vanished
turn limit now (dead false) w = go_on (record w { dead_done = true })

-- `kill_deadline.or(term_deadline)`
unfoldable pub deadline : Option ℕ → Option ℕ → Option ℕ
deadline (some at) term_at = some at
deadline none term_at = term_at

abbrev pub IsReached : ℕ → Option ℕ → Type 0
IsReached now none = ⊥
IsReached now (some at) = at ≤ now

-- The guards of the branches of `select!`.
abbrev pub IsEnabled : ℕ → Sel → Watch → Type 0
IsEnabled now (ctrl c) w = w.ctrl_open ≡ true
IsEnabled now timeout w = IsReached now (deadline w.kill_deadline w.term_deadline)
IsEnabled now (dead d) w = w.dead_done ≡ false
IsEnabled now _ w = Unit {0}

-- The loop: turns that go on, each enabled where it is taken.
pub data Loop (limit : ℕ) : Watch → Watch → Type 0 where
  here : {w : Watch} → Loop limit w w
  next :
      {w v u : Watch} (now : ℕ) (sel : Sel)
      → Loop limit w v
      → IsEnabled now sel v
      → turn limit now sel v ≡ go_on u
      → Loop limit w u

-- After the loop: an escalation that is still armed is made up for.
unfoldable pub make_up : ℕ → Option ℕ → Watch → Watch
make_up now (some at) w = send now kill w
make_up now none w = w

-- The code of the report.
unfoldable pub report_code : Watch → ExitStatus → ℤ
unfolding status_code
report_code w s = if w.timed_out then timeout_exit_code else status_code s
