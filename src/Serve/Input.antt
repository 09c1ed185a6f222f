-- ===== src/Serve/Input.antt =====
-- The input of a command in crates/sp-serve/src/serve.rs: the task that reads frames from the
-- transport, the task that takes the signals that sp-serve catches, the pump of the child's standard
-- input, and the control events of the main loop. A schedule says which goes on next.
pub mod Order
use shell_proxy.Prelude.{
  ℕ, Bool, true, false, List, [], ◌∷◌, ◌++◌, Option, none, some, ltb, if◌then◌else◌, length, take,
  Text,
}
use shell_proxy.Proto.Frame.{
  Bytes, ExecFrame, exec, stdin_data, stdin_eof, signal, ping, ServeExec, Signal,
}
use shell_proxy.Serve.Watch.{Ctrl, signal as caught, closed, bad}

-- What `read_exec_frame` gives: a frame, the end, or an error.
pub data Arrival : Type 0 where
  frame : ExecFrame ServeExec → Arrival
  ended : Arrival
  failed : Text → Arrival

pub data StdinMsg : Type 0 where
  chunk : Bytes → StdinMsg
  eof : StdinMsg

-- Where the router is: at a read, in a send to the pump, in a send to the main loop, behind which
-- it may stop, or stopped.
pub data Router : Type 0 where
  reading : Router
  sending : StdinMsg → Router
  telling : Ctrl → Bool → Router
  stopped : Router

-- The tasks: what is still to arrive, as frames and as signals to sp-serve itself, the two channels,
-- what the child's input got, and what the main loop has received from either sender.
pub record Input : Type 0 where
  pub arrivals : List Arrival
  pub signals : List Signal
  pub router : Router
  pub queue : List StdinMsg
  pub pump_alive : Bool
  pub child_in : Bytes
  pub ctrl : List Ctrl
  pub heard : List Ctrl

abbrev pub new_input : List Arrival → List Signal → Input
new_input arrivals signals = record {
  arrivals = arrivals;
  signals = signals;
  router = reading;
  queue = [];
  pump_alive = true;
  child_in = [];
  ctrl = [];
  heard = [];
}

abbrev pub stdin_room : ℕ
stdin_room = 256

abbrev pub ctrl_room : ℕ
ctrl_room = 16

-- The arms of the router's `match`. A pong goes to the output, and a second request is ignored.
unfoldable pub route : Arrival → Router
route (frame (stdin_data d)) = sending (chunk d)
route (frame stdin_eof) = sending eof
route (frame (signal s)) = telling (caught s) false
route (frame ping) = reading
route (frame (exec req)) = reading
route ended = telling closed true
route (failed e) = telling (bad e) true

unfoldable pub read_next : List Arrival → Input → Input
unfolding route
read_next [] i = i
read_next (a ∷ rest) i = record i { arrivals = rest; router = route a }

-- A send to the pump waits for room; it fails when the pump is gone.
unfoldable pub send_stdin : Bool → StdinMsg → Input → Input
send_stdin false m i = record i { router = stopped }
send_stdin true m i =
    if ltb (length i.queue) stdin_room
    then record i { queue = i.queue ++ m ∷ []; router = reading }
    else i

abbrev pub behind : Bool → Router
behind true = stopped
behind false = reading

unfoldable pub send_ctrl : Ctrl → Bool → Input → Input
send_ctrl c last i =
    if ltb (length i.ctrl) ctrl_room
    then record i { ctrl = i.ctrl ++ c ∷ []; router = behind last }
    else i

unfoldable pub turn_router : Router → Input → Input
unfolding read_next send_stdin send_ctrl
turn_router reading i = read_next i.arrivals i
turn_router (sending m) i = send_stdin i.pump_alive m i
turn_router (telling c last) i = send_ctrl c last i
turn_router stopped i = i

-- A turn of the task for caught signals: a signal that came is sent, as soon as there is room.
unfoldable pub turn_signals : List Signal → Input → Input
turn_signals [] i = i
turn_signals (s ∷ rest) i =
    if ltb (length i.ctrl) ctrl_room
    then record i { signals = rest; ctrl = i.ctrl ++ caught s ∷ [] }
    else i

-- What a write to the child comes to: all of it, or an error behind so many bytes.
pub data Write : Type 0 where
  whole : Write
  broken : ℕ → Write

-- A turn of the pump. At its end it drops the write end, and its channel.
unfoldable pub turn_stdin : Write → List StdinMsg → Input → Input
turn_stdin w [] i = i
turn_stdin w (eof ∷ q) i = record i { queue = []; pump_alive = false }
turn_stdin whole (chunk d ∷ q) i = record i { queue = q; child_in = i.child_in ++ d }
turn_stdin (broken n) (chunk d ∷ q) i = record i {
  queue = [];
  pump_alive = false;
  child_in = i.child_in ++ take n d;
}

abbrev pub while_alive : Bool → Write → Input → Input
while_alive false w i = i
while_alive true w i = turn_stdin w i.queue i

-- `ctrl_rx.recv()` of the main loop.
unfoldable pub receive : List Ctrl → Input → Input
receive [] i = i
receive (c ∷ cs) i = record i { ctrl = cs; heard = i.heard ++ c ∷ [] }

pub data Turn : Type 0 where
  router_turn : Turn
  signal_turn : Turn
  pump_turn : Write → Turn
  loop_turn : Turn

unfoldable pub turn : Turn → Input → Input
unfolding turn_router turn_signals turn_stdin receive
turn router_turn i = turn_router i.router i
turn signal_turn i = turn_signals i.signals i
turn (pump_turn w) i = while_alive i.pump_alive w i
turn loop_turn i = receive i.ctrl i

unfoldable pub turns : List Turn → Input → Input
unfolding turn
turns [] i = i
turns (t ∷ ts) i = turns ts (turn t i)
