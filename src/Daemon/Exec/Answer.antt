-- ===== src/Daemon/Exec/Answer.antt =====
-- How a request that the daemon of src/daemon.rs takes is answered.
use shell_proxy.Prelude.{
  ℕ, ◌≡◌, List, [], ◌∷◌, ◌++◌, All, Option, none, some, Bool, true, false, ◌⊎◌, ok,
}
use shell_proxy.Proto.Frame.{ExecRequest, ExitReport, EventFrame, stdout, stderr, exit, pong}
use shell_proxy.Proto.Session.{SessionId, parse}
use shell_proxy.Daemon.Shared.{HostConn, Shared, get_or_connect, get_session}
use shell_proxy.Daemon.Control.{
  Turn, ctrl, engine, watchdog, output, Control, deadline_of, Controlled,
}
use shell_proxy.Daemon.Exec.{World, Handled, or_default}

abbrev pub is_exit : EventFrame → Bool
is_exit (exit r) = true
is_exit (stdout d) = false
is_exit (stderr d) = false
is_exit (pong p) = false

abbrev pub HasNoExit : List EventFrame → Type 0
HasNoExit = All (λ f. is_exit f ≡ false)

-- One report, behind all else.
abbrev pub IsAnswer : List EventFrame → Type 0
IsAnswer sent =
    (front : List EventFrame) × (r : ExitReport) × (sent ≡ front ++ exit r ∷ []) × HasNoExit front

-- The schedule gets to the end of the engine or to an armed watchdog.
unfoldable pub ends : Option ℕ → List Turn → Bool
ends deadline [] = false
ends deadline (engine r ∷ ts) = true
ends none (watchdog ∷ ts) = ends none ts
ends (some at) (watchdog ∷ ts) = true
ends deadline (ctrl lane ∷ ts) = ends deadline ts
ends deadline (output e ∷ ts) = ends deadline ts

-- Without a report among its frames; and where there is no result, `P` holds.
abbrev Ended : Type 0 → Controlled → Type 0
Ended P (c, o) = (o ≡ none → P) × HasNoExit c.frames

-- The tables with an entry for the session of a request.
abbrev pub with_entry : ExecRequest → SessionId → Shared → Shared
with_entry req session t = record t {
  sessions = get_session (record { host = req.host; session = session }) t.sessions;
}

-- A wait of the daemon's that never ends: for the lock of the request's session, or, where no armed
-- watchdog fires either, for the end of the engine.
abbrev pub Waits : World → ExecRequest → Shared → Type 0
Waits w req s =
    ((session : SessionId) × (conn : HostConn) × (t : Shared) × (parse (or_default req.session)
        ≡ ok session)
      × (get_or_connect w.contact req.host s ≡ (ok conn, t))
      × (w.while_queued (with_entry req session t) ≡ none))
    ⊎ (ends (deadline_of w.deadline_after req.timeout_ms) w.schedule ≡ false)

-- An outcome whose frames are an answer, or such a wait.
abbrev pub IsHandled : World → ExecRequest → Shared → Option Handled → Type 0
IsHandled w req s none = Waits w req s
IsHandled w req s (some h) = IsAnswer h.sent
