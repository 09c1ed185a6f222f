-- ===== src/Daemon/Shared.antt =====
-- The shared tables of src/daemon.rs: the connections of the hosts and the directories of the
-- sessions, with `get_or_connect`, `get_session` and the eviction. An instance of a connection is a
-- number, as `Arc::ptr_eq` tells two apart.
use shell_proxy.Prelude.{
  ℕ, List, [], ◌∷◌, Option, none, some, Bool, true, false, ◌&&◌, Result, ok, err, Text, eq_text,
  ◌==◌, if◌then◌else◌,
}
use shell_proxy.Proto.Session.{SessionId}

pub record HostConn : Type 0 where
  pub instance_id : ℕ
  pub serve_path : Text

pub record SessionKey : Type 0 where
  pub host : Text
  pub session : SessionId

abbrev pub Hosts : Type 0
Hosts = List (Text × HostConn)

abbrev pub Sessions : Type 0
Sessions = List (SessionKey × Option Text)

pub record Shared : Type 0 where
  pub hosts : Hosts
  pub sessions : Sessions

-- `HashMap::get`, `remove`, `insert` for a map that has no key twice.
unfoldable pub get_host : Text → Hosts → Option HostConn
unfolding eq_text
get_host host [] = none
get_host host ((name, c) ∷ hs) = if eq_text name host then some c else get_host host hs

unfoldable pub remove_host : Text → Hosts → Hosts
unfolding eq_text
remove_host host [] = []
remove_host host ((name, c) ∷ hs) =
    let rest = remove_host host hs in if eq_text name host then rest else (name, c) ∷ rest

unfoldable pub insert_host : Text → HostConn → Hosts → Hosts
unfolding remove_host
insert_host host c hs = (host, c) ∷ remove_host host hs

abbrev pub unless_closed : (HostConn → Bool) → Option HostConn → Option HostConn
unless_closed is_closed none = none
unless_closed is_closed (some c) = if is_closed c then none else some c

unfoldable pub live : (HostConn → Bool) → Text → Hosts → Option HostConn
unfolding get_host
live is_closed host hs = unless_closed is_closed (get_host host hs)

pub data ConnectError : Type 0 where
  elapsed : ConnectError
  connect_failed : Text → ConnectError

-- What happens around one call: which connections are closed at each look, what the other tasks
-- do to the tables before the next, and how `connect_host` ends, if it does in time.
pub record Contact : Type 0 where
  pub closed_at_first : HostConn → Bool
  pub while_waiting : Shared → Shared
  pub closed_at_second : HostConn → Bool
  pub connected : Option (Result HostConn Text)
  pub while_connecting : Shared → Shared
  pub closed_at_third : HostConn → Bool

-- The connection, and the tables.
abbrev pub Contacted : Type 0
Contacted = Result HostConn ConnectError × Shared

-- Another task connected first, or the new connection is entered.
unfoldable pub settle : Option HostConn → Text → HostConn → Shared → Contacted
unfolding insert_host
settle (some existing) host conn s = (ok existing, s)
settle none host conn s = (ok conn, record s { hosts = insert_host host conn s.hosts })

unfoldable pub after_connect : Contact → Text → Option (Result HostConn Text) → Shared → Contacted
unfolding live settle
after_connect c host none s = (err elapsed, c.while_connecting s)
after_connect c host (some (err e)) s = (err (connect_failed e), c.while_connecting s)
after_connect c host (some (ok conn)) s =
    let now = c.while_connecting s in settle (live c.closed_at_third host now.hosts) host conn now

abbrev pub or_connect : Option HostConn → Shared → (Shared → Contacted) → Contacted
or_connect (some conn) s next = (ok conn, s)
or_connect none s next = next s

unfoldable pub get_or_connect : Contact → Text → Shared → Contacted
unfolding live after_connect
get_or_connect c host s = or_connect (live c.closed_at_first host s.hosts) s (λ s.
    let now = c.while_waiting s in
    or_connect (live c.closed_at_second host now.hosts) now (after_connect c host c.connected))

unfoldable pub eq_key : SessionKey → SessionKey → Bool
unfolding eq_text
eq_key a b = eq_text a.host b.host && eq_text a.session.name b.session.name

-- The directory of a session; one without an entry gets an empty bucket on its first use.
unfoldable pub cwd_of : SessionKey → Sessions → Option Text
unfolding eq_key
cwd_of key [] = none
cwd_of key ((k, cwd) ∷ ss) = if eq_key k key then cwd else cwd_of key ss

unfoldable pub has_session : SessionKey → Sessions → Bool
unfolding eq_key
has_session key [] = false
has_session key ((k, cwd) ∷ ss) = if eq_key k key then true else has_session key ss

unfoldable pub get_session : SessionKey → Sessions → Sessions
unfolding has_session
get_session key ss = if has_session key ss then ss else (key, none) ∷ ss

-- The bucket that `get_session` gave takes a new directory.
unfoldable pub set_cwd : SessionKey → Text → Sessions → Sessions
unfolding eq_key
set_cwd key cwd [] = []
set_cwd key cwd ((k, old) ∷ ss) =
    let rest = set_cwd key cwd ss in if eq_key k key then (k, some cwd) ∷ ss else (k, old) ∷ rest

abbrev pub is_instance : HostConn → Option HostConn → Bool
is_instance conn none = false
is_instance conn (some c) = c.instance_id == conn.instance_id

-- After a failed run over a closed connection.
unfoldable pub evict : Text → HostConn → Bool → Bool → Hosts → Hosts
unfolding get_host remove_host
evict host conn failed is_closed hs =
    if failed && (is_closed && is_instance conn (get_host host hs)) then remove_host host hs else hs
