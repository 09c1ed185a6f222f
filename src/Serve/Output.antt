-- ===== src/Serve/Output.antt =====
-- The output of a command in crates/sp-serve/src/serve.rs: the two pumps, the task that writes the
-- frames, the answers to pings, and `drain_pumps`. A schedule says which task is polled, and what
-- a write of the writer comes to.
pub mod Pumps
pub mod Order
pub mod Drained
pub mod Whole
use shell_proxy.Prelude.{
  ℕ, ◌+◌, ◌*◌, ◌==◌, Bool, true, false, not, ◌&&◌, ◌||◌, List, [], ◌∷◌, ◌++◌, Option, none, some,
  ltb, leb, if◌then◌else◌, length, take, drop, ◌⊎◌, inl, inr,
}
use shell_proxy.Proto.Frame.{Bytes, EventFrame, stdout, stderr, pong, Pong}
use shell_proxy.Serve.Pipe.{Got, bytes, failed}
use shell_proxy.Serve.Watch.{checked_add}

-- The buffer of a pump, and the room of the channel to the writer.
abbrev pub pump_buffer : ℕ
pump_buffer = 32 * 1024

abbrev pub channel_room : ℕ
channel_room = 256

-- Where a pump is: at a read, in the send of a frame, or behind its loop.
pub data Pump : Type 0 where
  reading : List Got → Pump
  sending : EventFrame → List Got → Pump
  finished : Pump

-- What a read leaves in the pipe.
abbrev pub rest_of : Bytes → List Got → List Got
rest_of [] rs = rs
rest_of (b ∷ bs) rs = bytes (b ∷ bs) ∷ rs

-- `r.read(&mut buf)`: at most a buffer of what is there.
unfoldable pub on_read : ℕ → (Bytes → EventFrame) → List Got → Pump
on_read n mk [] = finished
on_read n mk (failed ∷ rs) = finished
on_read n mk (bytes [] ∷ rs) = finished
on_read n mk (bytes (b ∷ bs) ∷ rs) = sending (mk (take n (b ∷ bs))) (rest_of (drop n (b ∷ bs)) rs)

-- The tasks on the channel of frames. `progress` counts the frames that the writer flushed, and
-- `pings` says that the router still holds its sender.
pub record Output : Type 0 where
  pub out_pump : Pump
  pub err_pump : Pump
  pub queue : List EventFrame
  pub writer_alive : Bool
  pub written : List EventFrame
  pub progress : ℕ
  pub pings : Bool

abbrev pub new_output : List Got → List Got → Output
new_output out_pipe err_pipe = record {
  out_pump = reading out_pipe;
  err_pump = reading err_pipe;
  queue = [];
  writer_alive = true;
  written = [];
  progress = 0;
  pings = true;
}

-- A turn of a pump: a read, or a send, which waits for room and fails behind the writer's end.
unfoldable pub turn_pump :
    (Bytes → EventFrame) → Bool → List EventFrame → Pump → Pump × List EventFrame
unfolding on_read
turn_pump mk alive q finished = (finished, q)
turn_pump mk alive q (reading rs) = (on_read pump_buffer mk rs, q)
turn_pump mk false q (sending f rs) = (finished, q)
turn_pump mk true q (sending f rs) =
    if ltb (length q) channel_room then (reading rs, q ++ f ∷ []) else (sending f rs, q)

-- A turn of the writer: a frame that is written and flushed, or the end of the task.
unfoldable pub turn_writer : Bool → List EventFrame → Output → Output
turn_writer written_out [] o = o
turn_writer true (f ∷ fs) o = record o {
  queue = fs;
  written = o.written ++ f ∷ [];
  progress = o.progress + 1;
}
turn_writer false (f ∷ fs) o = record o { queue = []; writer_alive = false }

pub data Poll : Type 0 where
  poll_out : Poll
  poll_err : Poll
  poll_writer : Bool → Poll
  ping : Pong → Poll

-- `ping_tx.try_send`: a full or closed channel drops the answer.
unfoldable pub answer : Pong → Output → Output
answer p o =
    if o.pings && (o.writer_alive && ltb (length o.queue) channel_room)
    then record o { queue = o.queue ++ pong p ∷ [] }
    else o

unfoldable pub poll : Poll → Output → Output
unfolding turn_pump turn_writer answer
poll poll_out o =
    let (p, q) = turn_pump stdout o.writer_alive o.queue o.out_pump in
    record o { out_pump = p; queue = q }
poll poll_err o =
    let (p, q) = turn_pump stderr o.writer_alive o.queue o.err_pump in
    record o { err_pump = p; queue = q }
poll (poll_writer written_out) o = turn_writer written_out o.queue o
poll (ping p) o = answer p o

unfoldable pub polls : List Poll → Output → Output
unfolding poll
polls [] o = o
polls (p ∷ ps) o = polls ps (poll p o)

abbrev pub drain_grace : ℕ
drain_grace = 2000

-- `drain_pumps`: its variables, with the progress that it has seen.
pub record Drain : Type 0 where
  pub out_done : Bool
  pub err_done : Bool
  pub stop_at : ℕ
  pub seen : ℕ

-- The branches of its `select!`.
pub data Look : Type 0 where
  out_ended err_ended changed stalled : Look

abbrev pub is_finished : Pump → Bool
is_finished finished = true
is_finished (reading rs) = false
is_finished (sending f rs) = false

abbrev pub with_deadline : Option ℕ → ℕ → Drain → Drain ⊎ Bool
with_deadline none seen d = inr false
with_deadline (some at) seen d = inl (record d { stop_at = at; seen = seen })

-- The branch of the progress. Behind the last flush the lost sender is seen.
abbrev pub on_changed : ℕ → ℕ → Output → Drain → Drain ⊎ Bool
on_changed limit now o d =
    if ltb d.seen o.progress
    then with_deadline (checked_add limit now drain_grace) o.progress d
    else if o.writer_alive
    then inl d
    else inr false

-- A branch at the instant `now`; one that is not ready leaves all as it is.
unfoldable pub look : ℕ → ℕ → Look → Output → Drain → Drain ⊎ Bool
unfolding checked_add
look limit now out_ended o d =
    inl (if is_finished o.out_pump then record d { out_done = true } else d)
look limit now err_ended o d =
    inl (if is_finished o.err_pump then record d { err_done = true } else d)
look limit now changed o d = on_changed limit now o d
look limit now stalled o d = if leb d.stop_at now then inr false else inl d

pub data Tick : Type 0 where
  task : Poll → Tick
  branch : ℕ → Look → Tick

-- What `drain_pumps` gives and the tasks behind it, once the schedule is long enough.
abbrev pub Drained : Type 0
Drained = Output × Option Bool

abbrev pub after_look : Output → Drain ⊎ Bool → (Drain → Drained) → Drained
after_look o (inl d) next = next d
after_look o (inr b) next = (o, some b)

abbrev pub all_done : Drain → Bool
all_done d = d.out_done && d.err_done

unfoldable pub drain_loop : ℕ → List Tick → Output → Drain → Drained
unfolding poll look
drain_loop limit [] o d = (o, if all_done d then some true else none)
drain_loop limit (task p ∷ ts) o d =
    let rest = drain_loop limit ts (poll p o) d in if all_done d then (o, some true) else rest
drain_loop limit (branch now l ∷ ts) o d =
    if all_done d
    then (o, some true)
    else after_look o (look limit now l o d) (drain_loop limit ts o)

-- Nobody has looked at the progress before.
abbrev pub first_drain : ℕ → Drain
first_drain at = record { out_done = false; err_done = false; stop_at = at; seen = 0 }

abbrev pub from_deadline : Option ℕ → ℕ → List Tick → Output → Drained
from_deadline none limit ts o = (o, some false)
from_deadline (some at) limit ts o = drain_loop limit ts o (first_drain at)

unfoldable pub drain_pumps : ℕ → ℕ → List Tick → Output → Drained
unfolding drain_loop checked_add
drain_pumps limit now ts o = from_deadline (checked_add limit now drain_grace) limit ts o

-- The pumps that made no progress are aborted.
unfoldable pub abort_pumps : Output → Output
abort_pumps o = record o { out_pump = finished; err_pump = finished }

-- What a write to standard output comes to, with its flush: it may wait for ever for a reader.
pub data WriteEnd : Type 0 where
  flushed refused never : WriteEnd

-- The writer behind the last sender, up to a write that fails or never ends. Those behind the given
-- outcomes go well.
unfoldable pub flush_queue : List WriteEnd → List EventFrame → List EventFrame × WriteEnd
flush_queue outcomes [] = ([], flushed)
flush_queue [] (f ∷ fs) = (f ∷ fs, flushed)
flush_queue (flushed ∷ outcomes) (f ∷ fs) =
    let (gs, last) = flush_queue outcomes fs in (f ∷ gs, last)
flush_queue (refused ∷ outcomes) (f ∷ fs) = ([], refused)
flush_queue (never ∷ outcomes) (f ∷ fs) = ([], never)
