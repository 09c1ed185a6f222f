-- ===== src/Daemon/Tests.antt =====
-- Concrete runs of src/daemon.rs, and its theorems at concrete inputs.
use shell_proxy.Prelude.{◌≡◌, refl, arith, List, [], ◌∷◌, none, some, true, false, ok, codes, pos}
use shell_proxy.Proto.Frame.{ExecRequest, stdout, exit, pong, exec, stdin_data, ping}
use shell_proxy.Proto.Session.{is_allowed}
use shell_proxy.Remote.Engine.{ExecOutcome, out}
use shell_proxy.Daemon.Idle
use shell_proxy.Daemon.Idle.Sound.{IsSound, Reach-IsSound}
use shell_proxy.Daemon.Shared.{HostConn, SessionKey, Shared, cwd_of, has_session, get_session}
use shell_proxy.Daemon.Route.{input, input_eof}
use shell_proxy.Daemon.Control.{roomy, ctrl, engine, output}
use shell_proxy.Daemon.Exec.{World, handle_conn}
use shell_proxy.Daemon.Order.{
  Locked, Event, entered, started, ended, with_lock, first_state, store, enter, start, finish, Run,
  nothing, then_step,
}
use shell_proxy.Daemon.Order.Alone.{Alone, run-Alone}

abbrev sample_conn : HostConn
sample_conn = record { instance_id = 1; serve_path = codes "serve" }

abbrev sample_outcome : ExecOutcome
sample_outcome = record { exit_code = pos 3; new_cwd = some (codes "/tmp"); timed_out = false }

abbrev sample_world : World
sample_world = record {
  pid = 9;
  error_text = λ p. [];
  deadline_after = λ d. some d;
  contact = record {
    closed_at_first = λ c. false;
    while_waiting = λ s. s;
    closed_at_second = λ c. false;
    connected = some (ok sample_conn);
    while_connecting = λ s. s;
    closed_at_third = λ c. false;
  };
  while_queued = λ s. some s;
  reads = (ok (some (stdin_data (5 ∷ []))), true) ∷ (ok (some ping), true) ∷ (ok none, true) ∷ [];
  schedule =
      output (out (7 ∷ []))
      ∷ ctrl roomy
      ∷ ctrl roomy
      ∷ ctrl roomy
      ∷ engine (ok sample_outcome)
      ∷ [];
  late = out (8 ∷ []) ∷ [];
  while_running = λ s. s;
  closed_at_end = false;
}

abbrev sample_request : ExecRequest
sample_request = record {
  host = codes "h";
  command = codes "ls";
  args = [];
  cwd = none;
  timeout_ms = some 5;
  session = none;
}

abbrev no_tables : Shared
no_tables = record { hosts = []; sessions = [] }

abbrev sample_key : SessionKey
sample_key = record { host = codes "h"; session = record { name = codes "default" } }

-- The outputs and the pong in the order of the schedule, then the report; the directory is kept.
sample_handled :
    handle_conn sample_world
      ((ok (some ping), true) ∷ (ok (some (exec sample_request)), true) ∷ sample_world.reads)
      no_tables
    ≡ some (record {
      sent =
          pong (record { pid = 9 })
          ∷ stdout (7 ∷ [])
          ∷ pong (record { pid = 9 })
          ∷ stdout (8 ∷ [])
          ∷ exit
              (record { code = pos 3; cwd = some (codes "/tmp"); error = none; timed_out = false })
          ∷ [];
      served = some (record {
        session = codes "default";
        command = codes "ls";
        args = [];
        cwd = none;
        timeout_ms = some 5;
      });
      stdin = input (5 ∷ []) ∷ input_eof ∷ [];
      tables = record {
        hosts = (codes "h", sample_conn) ∷ [];
        sessions = (sample_key, some (codes "/tmp")) ∷ [];
      };
    })
unfolding handle_conn is_allowed
sample_handled = refl

-- Two sessions of a host: the second starts and ends while a command of the first runs.
abbrev other_key : SessionKey
other_key = record { host = codes "h"; session = record { name = codes "b" } }

abbrev first_two : Locked
unfolding get_session
first_two = record {
  sessions = get_session other_key (get_session sample_key []);
  held = λ k. false;
}

sample_both : Run (entered sample_key ∷ entered other_key ∷ []) first_two
unfolding first_two
sample_both =
    then_step (entered sample_key ∷ []) (entered other_key) _ _
      (then_step [] (entered sample_key) _ _ nothing (enter sample_key first_state))
      (enter other_key _)

abbrev sample_state : Locked
unfolding first_two with_lock store
sample_state = record {
  sessions = store other_key (some (codes "/y")) first_two.sessions;
  held =
      with_lock other_key false
        (with_lock other_key true (with_lock sample_key true first_two.held));
}

abbrev sample_events : List Event
sample_events =
    entered sample_key
    ∷ entered other_key
    ∷ started sample_key none none
    ∷ started other_key (some (codes "/x")) (some (codes "/x"))
    ∷ ended other_key (some (codes "/y"))
    ∷ []

sample_run : Run sample_events sample_state
unfolding first_two sample_state cwd_of has_session with_lock
sample_run =
    then_step
      (entered sample_key
        ∷ entered other_key
        ∷ started sample_key none none
        ∷ started other_key (some (codes "/x")) (some (codes "/x"))
        ∷ [])
      _ _ _
      (then_step (entered sample_key ∷ entered other_key ∷ started sample_key none none ∷ []) _ _ _
        (then_step (entered sample_key ∷ entered other_key ∷ []) _ _ _ sample_both
          (start sample_key none first_two refl refl))
        (start other_key (some (codes "/x")) _ refl refl))
      (finish other_key (some (codes "/y")) _ refl)

run-Alone_example :
    Alone other_key sample_events
      (cwd_of other_key sample_state.sessions)
      (sample_state.held other_key)
run-Alone_example = run-Alone other_key sample_events sample_state sample_run

-- A connection comes while the loop is idle, and goes while it waits for no deadline.
abbrev one_gone : Idle.Loop
one_gone =
    Idle.release
      (Idle.load 100000 (some 1) 7 (Idle.accept (Idle.load 100000 (some 1) 5 Idle.new_loop)))

one_gone-Reach : Idle.Reach 100000 (some 1) one_gone
unfolding Idle.load Idle.accept
one_gone-Reach =
    Idle.next
      (Idle.next
        (Idle.next (Idle.next Idle.here (Idle.loads Idle.new_loop 5 refl))
          (Idle.accepts _ (some 1005) refl))
        (Idle.loads _ 7 refl))
      (Idle.releases _ (omega arith))

Reach-IsSound_example : IsSound 100000 (some 1) one_gone
Reach-IsSound_example = Reach-IsSound one_gone-Reach
