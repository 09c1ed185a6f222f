-- ===== src/Remote/Forwarder.antt =====
-- The tasks of `ExecChannel::open` in src/remote.rs that write to sp-serve: the frame forwarder with
-- its lanes, and the signal sender. A round is one poll of the forwarder, before which the lanes may
-- have got more; the other messages of the channel are in `to_event`.
pub mod Order
pub mod Stuck
use shell_proxy.Prelude.{
  ℕ, List, [], ◌∷◌, ◌++◌, Option, none, some, Bool, true, false, ◌==◌, if◌then◌else◌, Text,
}
use shell_proxy.Proto.Frame.{
  Bytes, Signal, int, term, kill, hup, ServeExec, ExecFrame, exec, stdin_data, stdin_eof, signal,
}
use shell_proxy.Daemon.Route.{StdinEvent, input, input_eof}
use shell_proxy.Remote.Engine.{ChanEvent, data_bytes, log_bytes, status, channel_closed}
use shell_proxy.Remote.Shell.{ChannelMsg, data_msg, extended_data, exit_status, close, other}

-- The reader task; an end of file of the channel counts as its close.
unfoldable pub to_event : ChannelMsg → Option ChanEvent
to_event (data_msg d) = some (data_bytes d)
to_event (extended_data d ext) = if ext == 1 then some (log_bytes d) else none
to_event (exit_status s) = some (status s)
to_event close = some channel_closed
to_event other = none

abbrev pub goes_out_of_band : Signal → Bool
goes_out_of_band int = true
goes_out_of_band term = false
goes_out_of_band kill = false
goes_out_of_band hup = false

-- The signal sender: the requests on the channel, and the signals for the in-band lane with whether
-- it had room.
pub record Sender : Type 0 where
  pub requests : List Signal
  pub relayed : List Signal

abbrev pub request : Signal → Sender → Sender
request s t = if goes_out_of_band s then record t { requests = t.requests ++ s ∷ [] } else t

abbrev pub relay : Signal → Bool → Sender → Sender
relay s true t = record t { relayed = t.relayed ++ s ∷ [] }
relay s false t = t

unfoldable pub signal_sender : List (Signal × Bool) → Sender → Sender
signal_sender [] t = t
signal_sender ((s, room) ∷ ss) t = signal_sender ss (relay s room (request s t))

-- How a write ends: on the wire, refused by the transport, or cancelled by the shutdown.
pub data Sent : Type 0 where
  done refused cancelled : Sent

pub record Forward : Type 0 where
  pub stdin : List StdinEvent
  pub stdin_closed : Bool
  pub signals : List Signal
  pub signals_closed : Bool
  pub stdin_open : Bool
  pub frames : List (ExecFrame ServeExec)
  pub running : Bool

-- What comes before a round, how a write in it ends, and the choice between branches that are
-- ready where the select has no order.
pub record Round : Type 0 where
  pub more_stdin : List StdinEvent
  pub close_stdin : Bool
  pub more_signals : List Signal
  pub close_signals : Bool
  pub shutdown : Bool
  pub write : Sent
  pub shutdown_first : Bool

abbrev pub opened : ServeExec → Forward
opened req = record {
  stdin = [];
  stdin_closed = false;
  signals = [];
  signals_closed = false;
  stdin_open = true;
  frames = exec req ∷ [];
  running = true;
}

-- A closed lane takes nothing more.
abbrev pub more : {A : Type 0} → Bool → List A → List A → List A
more true new queue = queue
more false new queue = queue ++ new

abbrev pub or_closed : Bool → Bool → Bool
or_closed true b = true
or_closed false b = b

unfoldable pub arrive : Round → Forward → Forward
arrive r f = record f {
  stdin = more f.stdin_closed r.more_stdin f.stdin;
  stdin_closed = or_closed f.stdin_closed r.close_stdin;
  signals = more f.signals_closed r.more_signals f.signals;
  signals_closed = or_closed f.signals_closed r.close_signals;
}

abbrev pub stop : Forward → Forward
stop f = record f { running = false }

-- A signal frame, and a frame of data: only a write that is done goes on.
abbrev pub write_frame : ExecFrame ServeExec → Sent → Forward → Forward
write_frame frame done f = record f { frames = f.frames ++ frame ∷ [] }
write_frame frame refused f = stop f
write_frame frame cancelled f = stop f

-- The end of the input: a refused write ends the input as well.
abbrev pub write_eof : Sent → Forward → Forward
write_eof done f = record f { frames = f.frames ++ stdin_eof ∷ []; stdin_open = false }
write_eof refused f = record f { stdin_open = false }
write_eof cancelled f = stop f

abbrev pub if_shutdown : Bool → Forward → Forward
if_shutdown true f = stop f
if_shutdown false f = f

abbrev pub take_stdin : Round → List StdinEvent → Bool → Forward → Forward
take_stdin r (input d ∷ es) closed f = write_frame (stdin_data d) r.write (record f { stdin = es })
take_stdin r (input_eof ∷ es) closed f = write_eof r.write (record f { stdin = es })
take_stdin r [] true f = record f { stdin_open = false }
take_stdin r [] false f = if_shutdown r.shutdown f

-- The biased select: the in-band lane, the input, the shutdown. A closed lane is ready at once, and
-- its end is no reason to stop.
abbrev pub select_open : Round → List Signal → Bool → Forward → Forward
select_open r (s ∷ ss) closed f = write_frame (signal s) r.write (record f { signals = ss })
select_open r [] true f = f
select_open r [] false f = take_stdin r f.stdin f.stdin_closed f

-- Behind the input: the in-band lane and the shutdown in any order.
abbrev pub take_signal : Round → List Signal → Bool → Forward → Forward
take_signal r (s ∷ ss) closed f = write_frame (signal s) r.write (record f { signals = ss })
take_signal r [] true f = stop f
take_signal r [] false f = if_shutdown r.shutdown f

abbrev pub shutdown_wins : Round → Bool
shutdown_wins r = if r.shutdown then r.shutdown_first else false

abbrev pub poll : Round → Forward → Forward
poll r f =
    if f.stdin_open
    then select_open r f.signals f.signals_closed f
    else if shutdown_wins r
    then stop f
    else take_signal r f.signals f.signals_closed f

unfoldable pub round : Round → Forward → Forward
unfolding arrive
round r f = if f.running then poll r (arrive r f) else f

unfoldable pub rounds : List Round → Forward → Forward
unfolding round
rounds [] f = f
rounds (r ∷ rs) f = rounds rs (round r f)
