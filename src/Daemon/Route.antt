-- ===== src/Daemon/Route.antt =====
-- The client-frame reader task of `handle_exec` in src/daemon.rs: data for the stdin lane, the
-- rest for the control loop. Each read comes with whether the lane it goes to is still open.
use shell_proxy.Prelude.{
  List, [], ◌∷◌, ◌++◌, Option, none, some, Bool, true, false, Result, ok, err, if◌then◌else◌,
}
use shell_proxy.Proto.Frame.{
  Bytes, Error, Signal, ExecRequest, ExecFrame, exec, stdin_data, stdin_eof, signal, ping,
}

-- `StdinEvent` of src/remote.rs.
pub data StdinEvent : Type 0 where
  input : Bytes → StdinEvent
  input_eof : StdinEvent

-- The texts of `CtrlEvent::Fatal`, by what they hold.
pub data Fatal : Type 0 where
  nested_exec : Fatal
  unreadable : Error → Fatal

pub data CtrlEvent : Type 0 where
  client_signal : Signal → CtrlEvent
  client_ping : CtrlEvent
  client_gone : CtrlEvent
  fatal : Fatal → CtrlEvent

-- What was sent on the two lanes.
pub record Lanes : Type 0 where
  pub stdin_lane : List StdinEvent
  pub ctrl_lane : List CtrlEvent

abbrev pub Received : Type 0
Received = Result (Option (ExecFrame ExecRequest)) Error

abbrev pub to_stdin : StdinEvent → Bool → Lanes → Lanes
to_stdin e true l = record l { stdin_lane = l.stdin_lane ++ e ∷ [] }
to_stdin e false l = l

abbrev pub to_ctrl : CtrlEvent → Bool → Lanes → Lanes
to_ctrl e true l = record l { ctrl_lane = l.ctrl_lane ++ e ∷ [] }
to_ctrl e false l = l

-- A send to a closed lane ends the task.
unfoldable pub frame_reader : List (Received × Bool) → Lanes → Lanes
frame_reader [] l = l
frame_reader ((ok (some (stdin_data d)), open_lane) ∷ rs) l =
    let on = to_stdin (input d) open_lane l in
    let rest = frame_reader rs on in if open_lane then rest else on
frame_reader ((ok (some stdin_eof), open_lane) ∷ rs) l =
    let on = to_stdin input_eof open_lane l in
    let rest = frame_reader rs on in if open_lane then rest else on
frame_reader ((ok (some (signal s)), open_lane) ∷ rs) l =
    let on = to_ctrl (client_signal s) open_lane l in
    let rest = frame_reader rs on in if open_lane then rest else on
frame_reader ((ok (some ping), open_lane) ∷ rs) l =
    let on = to_ctrl client_ping open_lane l in
    let rest = frame_reader rs on in if open_lane then rest else on
frame_reader ((ok (some (exec r)), open_lane) ∷ rs) l = to_ctrl (fatal nested_exec) open_lane l
frame_reader ((ok none, open_lane) ∷ rs) l =
    to_ctrl client_gone open_lane (to_stdin input_eof open_lane l)
frame_reader ((err e, open_lane) ∷ rs) l = to_ctrl (fatal (unreadable e)) open_lane l
