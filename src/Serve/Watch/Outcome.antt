-- ===== src/Serve/Watch/Outcome.antt =====
-- How the loop of crates/sp-serve/src/serve.rs ends: the report, the failures, and its timeouts.
use shell_proxy.Prelude.{
  ℕ, ◌+◌, ◌≤◌, ◌≡◌, ◌≢◌, subst, true, false, [], ◌∷◌, ◌++◌, Option, none, some, arith, Text,
}
use shell_proxy.Proto.Frame.{kill, ServeExec}
use shell_proxy.Serve.Watch.{
  ExitStatus, status_code, signal, closed, bad, Sel, ctrl, exit, exit_failed, timeout, dead, Bail,
  wait_on_child, Watch, go_on, bail, positive, first_deadline, start, turn, deadline, IsEnabled,
  Loop, here, next, report_code,
}
use shell_proxy.Serve.Watch.Escalation.{Phase, running, grace, killed, Loop-Phase, start-Phase}

-- The timeouts that the watch can still take.
abbrev rank : Option ℕ → Option ℕ → ℕ
rank (some k) (some t) = 3
rank (some k) none = 1
rank none (some t) = 2
rank none none = 0

abbrev pub is_timeout : Sel → ℕ
is_timeout timeout = 1
is_timeout _ = 0

-- The `Sel::Timeout` turns of a run.
pub timeouts : {limit : ℕ} {w v : Watch} → Loop limit w v → ℕ
timeouts here = 0
timeouts (next now sel l en e) = is_timeout sel + timeouts l

timeout-rank :
    (limit now : ℕ) (w v : Watch)
    → IsEnabled now timeout w
    → turn limit now timeout w ≡ go_on v
    → 1 + rank v.kill_deadline v.term_deadline ≤ rank w.kill_deadline w.term_deadline
unfolding turn deadline
timeout-rank limit now w v en e = ground arith

turn-rank :
    (limit now : ℕ) (sel : Sel) (w v : Watch)
    → IsEnabled now sel w
    → turn limit now sel w ≡ go_on v
    → is_timeout sel + rank v.kill_deadline v.term_deadline ≤ rank w.kill_deadline w.term_deadline
unfolding turn
turn-rank limit now (ctrl (some (signal s))) w v en e = ground arith
turn-rank limit now (ctrl (some closed)) w v en e = cc
turn-rank limit now (ctrl (some (bad x))) w v en e = cc
turn-rank limit now (ctrl none) w v en e = ground arith
turn-rank limit now (exit s) w v en e = cc
turn-rank limit now (exit_failed x) w v en e = cc
turn-rank limit now timeout w v en e = timeout-rank limit now w v en e
turn-rank limit now (dead true) w v en e = cc
turn-rank limit now (dead false) w v en e = ground arith

timeouts-rank :
    {limit : ℕ} {w v : Watch} (l : Loop limit w v)
    → timeouts l + rank v.kill_deadline v.term_deadline ≤ rank w.kill_deadline w.term_deadline
unfolding timeouts
timeouts-rank here = omega arith
timeouts-rank {limit} (next now sel l en e) =
    omega (arith, turn-rank limit now sel _ _ en e, timeouts-rank l)

rank-le-two : (t : Option ℕ) → rank none t ≤ 2
rank-le-two none = omega arith
rank-le-two (some t) = omega arith

rank-start :
    (limit now0 : ℕ) (req : ServeExec)
    → rank (start limit now0 req).kill_deadline (start limit now0 req).term_deadline ≤ 2
unfolding start
rank-start limit now0 req = rank-le-two _

-- In any run of the loop the timeout fires twice at most: once for the TERM and once for the KILL.
pub timeouts_le_two :
    (limit now0 : ℕ) (req : ServeExec) {v : Watch} (l : Loop limit (start limit now0 req) v)
    → timeouts l ≤ 2
timeouts_le_two limit now0 req l = omega (arith, timeouts-rank l, rank-start limit now0 req)

untimed : (limit : ℕ) (w : Watch) → Phase limit none w → w.timed_out ≡ false
untimed limit w (running a b c) = a
untimed limit w (grace t a b c r g) = elim r [ ]
untimed limit w (killed t u a b c r g s) = elim r [ ]

-- A command without a timeout, or with the timeout 0, is never reported as timed out: whatever
-- happens in the loop, the code of its report is the one of its wait status.
pub untimed_report :
    (limit now0 : ℕ) (req : ServeExec) (w : Watch) (s : ExitStatus)
    → positive req.timeout_ms ≡ none
    → Loop limit (start limit now0 req) w
    → (w.timed_out ≡ false) × (report_code w s ≡ status_code s)
untimed_report limit now0 req w s none_set l = (quiet, unfold report_code in rw quiet)
  where
    no_deadline : (start limit now0 req).term_deadline ≡ none
    no_deadline = unfold start first_deadline in rw none_set

    quiet : w.timed_out ≡ false
    quiet = untimed limit w (
        subst (λ (d : Option ℕ). Phase limit d w) no_deadline
          (Loop-Phase limit (start limit now0 req).term_deadline l (start-Phase limit now0 req)))

-- Whenever the loop is abandoned for another reason than a failed wait (the transport closed, a
-- frame was bad, or the daemon vanished), the last signal that the group was sent is a KILL, at
-- that very turn.
pub bail_kills :
    (limit now : ℕ) (sel : Sel) (w v : Watch) (b : Bail)
    → turn limit now sel w ≡ bail v b
    → ((e : Text) → b ≢ wait_on_child e)
    → v.sent ≡ w.sent ++ (now, kill) ∷ []
unfolding turn
bail_kills limit now (ctrl (some (signal s))) w v b e other = cc
bail_kills limit now (ctrl (some closed)) w v b e other = ground arith
bail_kills limit now (ctrl (some (bad x))) w v b e other = ground arith
bail_kills limit now (ctrl none) w v b e other = cc
bail_kills limit now (exit s) w v b e other = cc
bail_kills limit now (exit_failed x) w v b e other = absurd (other x cc)
bail_kills limit now timeout w v b e other = cc
bail_kills limit now (dead true) w v b e other = ground arith
bail_kills limit now (dead false) w v b e other = cc
