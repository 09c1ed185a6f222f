-- ===== src/SshConfig.antt =====
-- The resolution of a host through `ssh -G`: src/ssh_config.rs. Running ssh, the environment and the
-- joining of paths are parameters; a path is its text.
pub mod Tokens
pub mod Values
pub mod Expansion
pub mod RoundTrip
mod Tests
use shell_proxy.Prelude.{
  ℕ, ◌+◌, ◌*◌, ◌^◌, List, [], ◌∷◌, ◌++◌, map, Option, none, some, Bool, true, false, not, Result,
  ok, err, ◌>>=◌, Text, codes, eq_text, to_ascii_lowercase, starts_with, ◌==◌, ltb, if◌then◌else◌,
  lines, drop, from_utf8_lossy,
}
use shell_proxy.Config.{parse_u64}
use shell_proxy.SshConfig.Tokens.{Target, insert_value, expand_tokens, decimal}
use shell_proxy.SshConfig.Values.{unquote, split_values}

pub record ResolvedHost : Type 0 where
  pub hostname : Text
  pub port : ℕ
  pub user : Text
  pub identity_files : List Text
  pub known_hosts_files : List Text
  pub proxy_command : Option Text
  pub connect_timeout : Option ℕ
  pub strict_host_keys : Bool
  pub host_key_alias : Option Text

-- The home directory, `Path::join`, the local user, and whether this is Windows.
pub record System : Type 0 where
  pub home_dir : Option Text
  pub join_path : Text → Text → Text
  pub local_user : Option Text
  pub windows : Bool

-- The reasons of `Error::Resolve`.
pub data ResolveError : Type 0 where
  no_hostname : ResolveError
  no_user : ResolveError

abbrev pub or_empty : Option Text → Text
or_empty none = []
or_empty (some t) = t

abbrev pub home_ssh : System → Text
home_ssh sys = sys.join_path (or_empty sys.home_dir) (codes ".ssh")

abbrev pub default_identity_files : System → List Text
default_identity_files sys =
    map (λ n. sys.join_path (home_ssh sys) n)
      (codes "id_ed25519"
        ∷ codes "id_ecdsa"
        ∷ codes "id_rsa"
        ∷ codes "id_ed25519_sk"
        ∷ codes "id_ecdsa_sk"
        ∷ [])

abbrev pub in_home : System → Text → Option Text → Text
in_home sys path none = path
in_home sys path (some home) = sys.join_path home (drop 2 path)

abbrev pub expand_tilde : System → Text → Text
expand_tilde sys path =
    if starts_with (codes "~/") path then in_home sys path sys.home_dir else path

-- The variables of the parser.
pub record Parsed : Type 0 where
  pub hostname : Option Text
  pub port : ℕ
  pub user : Option Text
  pub identity_files : List Text
  pub known_hosts_files : List Text
  pub proxy_command : Option Text
  pub proxy_jump : Option Text
  pub connect_timeout : Option ℕ
  pub host_key_alias : Option Text
  pub strict_host_keys : Bool

abbrev pub unparsed : Parsed
unparsed = record {
  hostname = none;
  port = 22;
  user = none;
  identity_files = [];
  known_hosts_files = [];
  proxy_command = none;
  proxy_jump = none;
  connect_timeout = none;
  host_key_alias = none;
  strict_host_keys = true;
}

-- `str::parse::<u16>`, or 22.
abbrev pub port_or_22 : Option ℕ → ℕ
port_or_22 none = 22
port_or_22 (some n) = if ltb n (2 ^ 16) then n else 22

abbrev pub positive_secs : Option ℕ → Option ℕ
positive_secs none = none
positive_secs (some n) = if n == 0 then none else some n

abbrev pub is_one_of : Text → List Text → Bool
is_one_of v [] = false
is_one_of v (t ∷ ts) = if eq_text v t then true else is_one_of v ts

-- A value replaces the one before, unless it is `none`.
abbrev pub unless_none : Text → Option Text → Option Text
unless_none v old = if eq_text v (codes "none") then old else some v

abbrev pub unless_any_none : Text → Option Text → Option Text
unless_any_none v old = if eq_text (map to_ascii_lowercase v) (codes "none") then old else some v

unfoldable pub on_key : System → Text → Text → Parsed → Parsed
unfolding unquote split_values parse_u64 eq_text
on_key sys key value p =
    if eq_text key (codes "hostname")
    then record p { hostname = some (unquote value) }
    else if eq_text key (codes "port")
    then record p { port = port_or_22 (parse_u64 value) }
    else if eq_text key (codes "user")
    then record p { user = some (unquote value) }
    else if eq_text key (codes "connecttimeout")
    then record p { connect_timeout = positive_secs (parse_u64 (unquote value)) }
    else if eq_text key (codes "identityfile")
    then record p { identity_files = p.identity_files ++ expand_tilde sys (unquote value) ∷ [] }
    else if is_one_of key (codes "userknownhostsfile" ∷ codes "globalknownhostsfile" ∷ [])
    then record p {
      known_hosts_files = p.known_hosts_files ++ map (expand_tilde sys) (split_values value);
    }
    else if eq_text key (codes "stricthostkeychecking")
    then record p {
      strict_host_keys = not (
          is_one_of (unquote value)
            (codes "no" ∷ codes "off" ∷ codes "false" ∷ codes "accept-new" ∷ []));
    }
    else if eq_text key (codes "proxycommand")
    then record p { proxy_command = unless_none (unquote value) p.proxy_command }
    else if eq_text key (codes "proxyjump")
    then record p { proxy_jump = unless_none (unquote value) p.proxy_jump }
    else if eq_text key (codes "hostkeyalias")
    then record p { host_key_alias = unless_any_none (unquote value) p.host_key_alias }
    else p

-- `split_once(' ')`: the key so far, in front of the blank.
unfoldable pub split_line : System → Text → Text → Parsed → Parsed
unfolding on_key
split_line sys key [] p = p
split_line sys key (c ∷ s) p =
    let later = split_line sys (key ++ c ∷ []) s p in if c == 32 then on_key sys key s p else later

unfoldable pub parse_lines : System → List Text → Parsed → Parsed
unfolding split_line
parse_lines sys [] p = p
parse_lines sys (l ∷ ls) p = parse_lines sys ls (split_line sys [] l p)

abbrev pub or_error : Option Text → ResolveError → Result Text ResolveError
or_error none e = err e
or_error (some t) e = ok t

abbrev pub or_local : Option Text → Option Text → Option Text
or_local none other = other
or_local (some t) other = some t

abbrev pub target_of : System → Text → ℕ → Text → Target
target_of sys hostname port user = record {
  hostname = hostname;
  port = port;
  user = user;
  local_user = sys.local_user;
  escape = sys.windows;
}

-- The command for a jump host, if only that is set.
abbrev pub jump_command : System → Target → Option Text → Option Text
unfolding insert_value expand_tokens decimal
jump_command sys t none = none
jump_command sys t (some jump) = some (
    codes "ssh -W ["
    ++ insert_value t.hostname t.escape
    ++ codes "]:"
    ++ decimal t.port
    ++ codes " "
    ++ expand_tokens t jump)

abbrev pub or_files : List Text → List Text → List Text
or_files [] other = other
or_files (f ∷ fs) other = f ∷ fs

unfoldable pub resolved_of : System → Parsed → Text → Text → ResolvedHost
unfolding jump_command
resolved_of sys p hostname user = record {
  hostname = hostname;
  port = p.port;
  user = user;
  identity_files = or_files p.identity_files (default_identity_files sys);
  known_hosts_files =
      or_files p.known_hosts_files (sys.join_path (home_ssh sys) (codes "known_hosts") ∷ []);
  proxy_command =
      or_local p.proxy_command (jump_command sys (target_of sys hostname p.port user) p.proxy_jump);
  connect_timeout = p.connect_timeout;
  strict_host_keys = p.strict_host_keys;
  host_key_alias = p.host_key_alias;
}

unfoldable pub parse_ssh_g_output : System → Text → Result ResolvedHost ResolveError
unfolding parse_lines resolved_of lines
parse_ssh_g_output sys text = do
  let p = parse_lines sys (lines text) unparsed
  hostname ← or_error p.hostname no_hostname
  user ← or_error (or_local p.user sys.local_user) no_user
  ok (resolved_of sys p hostname user)

-- `fallback`, when ssh cannot be run.
unfoldable pub fallback : System → Text → Result ResolvedHost ResolveError
fallback sys host = do
  user ← or_error sys.local_user no_user
  ok (record {
    hostname = host;
    port = 22;
    user = user;
    identity_files = default_identity_files sys;
    known_hosts_files = sys.join_path (home_ssh sys) (codes "known_hosts") ∷ [];
    proxy_command = none;
    connect_timeout = none;
    strict_host_keys = true;
    host_key_alias = none;
  })

-- What `ssh -G` printed, if it ran in time and succeeded; any failure falls back.
unfoldable pub or_fallback :
    System → Text → Result ResolvedHost ResolveError → Result ResolvedHost ResolveError
unfolding fallback
or_fallback sys host (ok r) = ok r
or_fallback sys host (err e) = fallback sys host

unfoldable pub resolve : System → Text → Option (List ℕ) → Result ResolvedHost ResolveError
unfolding fallback parse_ssh_g_output from_utf8_lossy or_fallback
resolve sys host none = fallback sys host
resolve sys host (some out) = or_fallback sys host (parse_ssh_g_output sys (from_utf8_lossy out))
