-- ===== src/Daemon/Control.antt =====
-- The control loop of `handle_exec` in src/daemon.rs with the bridge of the outputs: a schedule
-- says which of them goes on next, and the frames for the client are in the order they are sent.
use shell_proxy.Prelude.{
  ℕ, zero, suc, ◌+◌, List, [], ◌∷◌, ◌++◌, Option, none, some, Bool, true, false, Result, ok, err,
  Text,
}
use shell_proxy.Proto.Frame.{Signal, EventFrame, stdout, stderr, pong}
use shell_proxy.Remote.Engine.{OutputEvent, out, errs, ExecOutcome}
use shell_proxy.Daemon.Route.{Fatal, CtrlEvent, client_signal, client_ping, client_gone, fatal}

-- The texts of a failed run, by what they hold.
pub data Failed : Type 0 where
  fatal_frame : Fatal → Failed
  engine_failed : Text → Failed
  watchdog_fired : ℕ → Failed

-- Whether the lane of the signals takes another one; a closed lane takes none in silence.
pub data SignalLane : Type 0 where
  roomy full closed : SignalLane

pub data Turn : Type 0 where
  ctrl : SignalLane → Turn
  engine : Result ExecOutcome Text → Turn
  watchdog : Turn
  output : OutputEvent → Turn

-- The control events that the reader task sends, the frames sent to the client, the signals in the
-- lane of the engine and those dropped.
pub record Control : Type 0 where
  pub pending : List CtrlEvent
  pub ctrl_open : Bool
  pub frames : List EventFrame
  pub signals : List Signal
  pub dropped : List Signal

abbrev pub begun : List CtrlEvent → Control
begun events = record {
  pending = events;
  ctrl_open = true;
  frames = [];
  signals = [];
  dropped = [];
}

abbrev pub watchdog_grace_ms : ℕ
watchdog_grace_ms = 15000

-- When the watchdog fires; `deadline_after` is the checked addition of the clock.
abbrev pub deadline_of : (ℕ → Option ℕ) → Option ℕ → Option ℕ
deadline_of deadline_after none = none
deadline_of deadline_after (some zero) = none
deadline_of deadline_after (some (suc ms)) = deadline_after (suc ms + watchdog_grace_ms)

abbrev pub forward : OutputEvent → EventFrame
forward (out d) = stdout d
forward (errs d) = stderr d

abbrev pub send_frame : EventFrame → Control → Control
send_frame f c = record c { frames = c.frames ++ f ∷ [] }

-- `try_send` on the lane of the signals.
abbrev pub try_signal : Signal → SignalLane → Control → Control
try_signal s full c = record c { dropped = c.dropped ++ s ∷ [] }
try_signal s closed c = c
try_signal s roomy c = record c { signals = c.signals ++ s ∷ [] }

abbrev pub verdict : Result ExecOutcome Text → Result ExecOutcome Failed
verdict (ok o) = ok o
verdict (err e) = err (engine_failed e)

abbrev pub Controlled : Type 0
Controlled = Control × Option (Result ExecOutcome Failed)

-- One control event; `next` goes on with the loop.
abbrev pub on_ctrl :
    ℕ → Option CtrlEvent → SignalLane → Control → (Control → Controlled) → Controlled
on_ctrl pid (some (client_signal s)) lane c next = next (try_signal s lane c)
on_ctrl pid (some client_ping) lane c next = next (send_frame (pong (record { pid = pid })) c)
on_ctrl pid (some client_gone) lane c next = next c
on_ctrl pid (some (fatal f)) lane c next = (c, some (err (fatal_frame f)))
on_ctrl pid none lane c next = next (record c { ctrl_open = false })

-- `recv` on a lane whose sender is gone gives nothing.
abbrev pub recv : List CtrlEvent → Control → (Option CtrlEvent → Control → Controlled) → Controlled
recv [] c next = next none c
recv (e ∷ es) c next = next (some e) (record c { pending = es })

-- The branch of the timer is pending without a deadline.
abbrev pub on_watchdog : Option ℕ → Option ℕ → Control → (Control → Controlled) → Controlled
on_watchdog none timeout_ms c next = next c
on_watchdog (some at) none c next = (c, some (err (watchdog_fired 0)))
on_watchdog (some at) (some ms) c next = (c, some (err (watchdog_fired ms)))

-- The schedule may end before the loop does.
unfoldable pub control_loop : ℕ → Option ℕ → Option ℕ → List Turn → Control → Controlled
control_loop pid deadline timeout_ms [] c = (c, none)
control_loop pid deadline timeout_ms (ctrl lane ∷ ts) c = elim c.ctrl_open [
  | true ↦
      recv c.pending c
        (λ e c. on_ctrl pid e lane c (λ c. control_loop pid deadline timeout_ms ts c))
  | false ↦ control_loop pid deadline timeout_ms ts c
]
control_loop pid deadline timeout_ms (engine r ∷ ts) c = (c, some (verdict r))
control_loop pid deadline timeout_ms (watchdog ∷ ts) c =
    on_watchdog deadline timeout_ms c (λ c. control_loop pid deadline timeout_ms ts c)
control_loop pid deadline timeout_ms (output e ∷ ts) c =
    control_loop pid deadline timeout_ms ts (send_frame (forward e) c)
