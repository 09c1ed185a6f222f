-- ===== src/Client/Connect.antt =====
-- `connect_or_spawn` and `ping` of src/client.rs. What an attempt to connect comes to, the start of
-- the daemon and the clock are arguments; instants are milliseconds.
pub mod Ends
use shell_proxy.Prelude.{
  ℕ, ◌+◌, Bool, true, false, ◌&&◌, List, [], ◌∷◌, ◌++◌, Option, none, some, Result, ok, err,
  if◌then◌else◌, leb, Text,
}
use shell_proxy.Proto.Frame.{Error, EventFrame, stdout, stderr, exit, pong}

pub data Attempt : Type 0 where
  connected : Attempt
  refused : Attempt
  unreachable : Text → Attempt

-- What is done to the system, in order.
pub data Action : Type 0 where
  remove_socket : Action
  spawn_daemon : Action
  sleep : Action

pub data ConnectError : Type 0 where
  not_spawned : Text → ConnectError
  did_not_come_up : Attempt → ConnectError

abbrev pub spawn_wait : ℕ
spawn_wait = 10000

-- `absolute`: this is unix, and the path of the socket starts with a slash. The attempts behind the
-- start of the daemon have the instants at which they fail.
pub record World : Type 0 where
  pub absolute : Bool
  pub first : Attempt
  pub second : Attempt
  pub spawned : Result (Unit {0}) Text
  pub spawned_at : ℕ
  pub retries : List (ℕ × Attempt)

abbrev pub Connected : Type 0
Connected = List Action × Option (Result (Unit {0}) ConnectError)

abbrev pub doing : Action → Connected → Connected
doing a (done, r) = (a ∷ done, r)

-- An attempt of the loop that failed.
abbrev pub or_sleep : Bool → Attempt → Connected → Connected
or_sleep true a rest = ([], some (err (did_not_come_up a)))
or_sleep false a rest = doing sleep rest

unfoldable pub connect_loop : ℕ → List (ℕ × Attempt) → Connected
connect_loop deadline [] = ([], none)
connect_loop deadline ((now, connected) ∷ ts) = ([], some (ok tt))
connect_loop deadline ((now, refused) ∷ ts) =
    or_sleep (leb deadline now) refused (connect_loop deadline ts)
connect_loop deadline ((now, unreachable e) ∷ ts) =
    or_sleep (leb deadline now) (unreachable e) (connect_loop deadline ts)

unfoldable pub spawn_and_wait : World → Connected
unfolding connect_loop
spawn_and_wait w = elim w.spawned [
  | ok t ↦ doing spawn_daemon (connect_loop (w.spawned_at + spawn_wait) w.retries)
  | err e ↦ ([], some (err (not_spawned e)))
]

-- The second attempt, for a socket in the file system: only a refusal shows that it is stale.
unfoldable pub try_again : Attempt → World → Connected
unfolding spawn_and_wait
try_again connected w = ([], some (ok tt))
try_again refused w = doing remove_socket (spawn_and_wait w)
try_again (unreachable e) w = spawn_and_wait w

abbrev pub behind_first : Attempt → World → Connected
behind_first connected w = ([], some (ok tt))
behind_first a w = if w.absolute then try_again w.second w else spawn_and_wait w

unfoldable pub connect_or_spawn : World → Connected
unfolding try_again spawn_and_wait
connect_or_spawn w = behind_first w.first w

-- `ping`: what the daemon answers within the three seconds, and how a write went.
pub data Reply : Type 0 where
  answered : Option EventFrame → Reply
  unreadable : Error → Reply
  silent : Reply

pub data PingError : Type 0 where
  not_running : PingError
  unwritten : Error → PingError
  unexpected : Option EventFrame → PingError
  ipc : Error → PingError
  timed_out : PingError

unfoldable pub pid_of : Reply → Result ℕ PingError
pid_of (answered (some (pong p))) = ok p.pid
pid_of (answered (some (stdout d))) = err (unexpected (some (stdout d)))
pid_of (answered (some (stderr d))) = err (unexpected (some (stderr d)))
pid_of (answered (some (exit r))) = err (unexpected (some (exit r)))
pid_of (answered none) = err (unexpected none)
pid_of (unreadable e) = err (ipc e)
pid_of silent = err timed_out

-- The frame is written on the connection that the first attempt gives; nothing is spawned.
unfoldable pub ping : Attempt → Result (Unit {0}) Error → Reply → Result ℕ PingError
unfolding pid_of
ping connected (ok t) r = pid_of r
ping connected (err e) r = err (unwritten e)
ping refused w r = err not_running
ping (unreachable e) w r = err not_running
