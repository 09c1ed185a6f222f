-- ===== src/Ssh/Connect.antt =====
-- `connect` of src/ssh.rs. What the program of the proxy, the transport, russh and `authenticate`
-- come to, and after how many milliseconds, are arguments; starting the program takes no time.
pub mod Bounded
use shell_proxy.Prelude.{
  ℕ, ◌+◌, ◌-◌, ◌*◌, min, Bool, true, false, Option, none, some, Result, ok, err, if◌then◌else◌, leb,
  Text,
}
use shell_proxy.SshConfig.{ResolvedHost}

abbrev pub tcp_connect_timeout : ℕ
tcp_connect_timeout = 15

abbrev pub ssh_setup_timeout : ℕ
ssh_setup_timeout = 30

abbrev pub connect_timeout_cap : ℕ
connect_timeout_cap = 86400

abbrev pub clamp_timeout : ℕ → ℕ
clamp_timeout d = min d connect_timeout_cap

abbrev pub or_default : Option ℕ → ℕ → ℕ
or_default none d = d
or_default (some n) d = n

abbrev pub Outcome : Type 0
Outcome = Result (Unit {0}) Text

-- How long a step takes, where it ends at all, and what it comes to.
abbrev pub Step : Type 0
Step = Option ℕ × Outcome

-- `hostkey_reason`: what the handler has left there behind the handshake.
pub record World : Type 0 where
  pub spawned : Outcome
  pub tcp : Step
  pub handshake : Step
  pub hostkey_reason : Option Text
  pub authentication : Step

pub data ConnectError : Type 0 where
  proxy_not_spawned : Text → ConnectError
  tcp_timed_out : ConnectError
  not_connected : Text → ConnectError
  handshake_timed_out : ConnectError
  host_key : Text → ConnectError
  handshake_failed : Text → ConnectError
  auth_timed_out : ConnectError
  not_authenticated : Text → ConnectError

-- `owned`: the connection keeps the child of a proxy command; `killed`: `start_kill` was called.
pub record Connected : Type 0 where
  pub elapsed : ℕ
  pub killed : Bool
  pub result : Result Bool ConnectError

abbrev pub ends : ℕ → Result Bool ConnectError → Connected
ends at r = record { elapsed = at; killed = false; result = r }

-- `tokio::time::timeout`: how long it waits, and what the step gives within the limit.
unfoldable pub timeout : ℕ → Step → ℕ × Option Outcome
timeout limit (none, o) = (limit, none)
timeout limit (some t, o) = if leb t limit then (t, some o) else (limit, none)

abbrev pub millis : ℕ → ℕ
millis secs = 1000 * secs

abbrev pub setup_timeout : ResolvedHost → ℕ
setup_timeout h = millis (clamp_timeout (or_default h.connect_timeout ssh_setup_timeout))

abbrev pub tcp_timeout : ResolvedHost → ℕ
tcp_timeout h = millis (clamp_timeout (or_default h.connect_timeout tcp_connect_timeout))

abbrev pub map_connect_err : Option Text → Text → ConnectError
map_connect_err none e = handshake_failed e
map_connect_err (some reason) e = host_key reason

unfoldable pub after_auth : Bool → ℕ → ℕ × Option Outcome → Connected
after_auth proxied at (t, some (ok u)) = ends (at + t) (ok proxied)
after_auth proxied at (t, some (err e)) = ends (at + t) (err (not_authenticated e))
after_auth proxied at (t, none) = ends (at + t) (err auth_timed_out)

-- What is left of the time for the setup is for the authentication.
unfoldable pub after_handshake : Bool → ℕ → ℕ → World → ℕ × Option Outcome → Connected
unfolding timeout after_auth
after_handshake proxied at setup w (t, some (ok u)) =
    after_auth proxied (at + t) (timeout (setup - t) w.authentication)
after_handshake proxied at setup w (t, some (err e)) =
    ends (at + t) (err (map_connect_err w.hostkey_reason e))
after_handshake proxied at setup w (t, none) = record {
  elapsed = at + t;
  killed = proxied;
  result = err handshake_timed_out;
}

unfoldable pub via_proxy : ℕ → World → Outcome → Connected
unfolding timeout after_handshake
via_proxy setup w (ok u) = after_handshake true 0 setup w (timeout setup w.handshake)
via_proxy setup w (err e) = ends 0 (err (proxy_not_spawned e))

unfoldable pub via_tcp : ℕ → World → ℕ × Option Outcome → Connected
unfolding timeout after_handshake
via_tcp setup w (t, some (ok u)) = after_handshake false t setup w (timeout setup w.handshake)
via_tcp setup w (t, some (err e)) = ends t (err (not_connected e))
via_tcp setup w (t, none) = ends t (err tcp_timed_out)

abbrev pub over : ResolvedHost → World → Option Text → Connected
over h w none = via_tcp (setup_timeout h) w (timeout (tcp_timeout h) w.tcp)
over h w (some pc) = via_proxy (setup_timeout h) w w.spawned

unfoldable pub connect : ResolvedHost → World → Connected
unfolding via_proxy via_tcp timeout
connect h w = over h w h.proxy_command
