-- ===== src/Ssh/KnownHosts/Server.antt =====
-- `check_server_key`, `decide_server_key` and `check_known_host_file` of src/ssh.rs. The files are
-- given by what they are and hold; russh's check of hashed entries is a parameter.
pub mod Vouched
use shell_proxy.Prelude.{
  ℕ, ◌==◌, Bool, true, false, not, ◌&&◌, List, [], ◌∷◌, ◌++◌, map, Option, none, some,
  if◌then◌else◌, Text, codes, Result, eq_text, from_utf8_lossy,
}
use shell_proxy.Proto.Frame.{Bytes}
use shell_proxy.SshConfig.{ResolvedHost}
use shell_proxy.SshConfig.Tokens.{decimal}
use shell_proxy.Ssh.KnownHosts.{
  Entry, KnownHostCheck, absent, scan_known_hosts, HashedError, or_hashed, from_hashed_fallback,
  HostKeyDecision, accept, reject, Reject, decide_host_key, decide_certificate,
}

-- What the server presents. A certificate stands by its key.
pub data Presented (Key : Type 0) : Type 0 where
  public_key : Key → Presented Key
  certificate : Key → Presented Key

-- ssh_key's parser and comparisons, russh's check of a file for a host and a port, and the files.
pub record Library (Key : Type 0) : Type 0 where
  pub parse : Text → Option (Entry Key)
  pub same_key : Key → Key → Bool
  pub same_algorithm : Key → Key → Bool
  pub check_hashed : Text → ℕ → Key → Text → Result Bool HashedError
  pub is_file : Text → Bool
  pub read : Text → Option Bytes

unfoldable pub host_key_lookup_name : Text → ℕ → Text
unfolding decimal
host_key_lookup_name host port =
    if port == 22 then host else codes "[" ++ host ++ codes "]:" ++ decimal port

module _ {Key : Type 0} (lib : Library Key) where
  abbrev pub scan_bytes : Option Bytes → Text → Key → Bool → KnownHostCheck
  scan_bytes none lookup key cert = absent
  scan_bytes (some bytes) lookup key cert =
      scan_known_hosts lib.parse lib.same_key lib.same_algorithm (from_utf8_lossy bytes) lookup key
        cert

  unfoldable pub check_known_host_file : Text → Text → ℕ → Key → Bool → KnownHostCheck
  unfolding host_key_lookup_name from_hashed_fallback
  check_known_host_file path record_host port key cert =
      or_hashed (scan_bytes (lib.read path) (host_key_lookup_name record_host port) key cert)
        (lib.check_hashed record_host port key path)

  -- The configured files that are there.
  abbrev pub is_real : Text → Bool
  is_real path = not (eq_text path (codes "/dev/null")) && lib.is_file path

  unfoldable pub real_files : List Text → List Text
  unfolding eq_text
  real_files [] = []
  real_files (p ∷ ps) = let rest = real_files ps in if is_real p then p ∷ rest else rest

  abbrev pub record_name : ResolvedHost → Text
  record_name h = elim h.host_key_alias as (λ _. Text) [ some name ↦ name | none ↦ h.hostname ]

  abbrev pub checks : ResolvedHost → Key → Bool → List KnownHostCheck
  checks h key cert =
      map (λ p. check_known_host_file p (record_name h) h.port key cert)
        (real_files h.known_hosts_files)

  unfoldable pub decide_server_key : ResolvedHost → Presented Key → HostKeyDecision
  unfolding check_known_host_file real_files decide_host_key decide_certificate
  decide_server_key h (public_key key) = decide_host_key h.strict_host_keys (checks h key false)
  decide_server_key h (certificate key) = decide_certificate h.strict_host_keys (checks h key true)

  -- The answer to russh, and the reason that `connect` reads.
  abbrev pub answer : HostKeyDecision → Bool × Option Reject
  answer accept = (true, none)
  answer (reject why) = (false, some why)

  unfoldable pub check_server_key : ResolvedHost → Presented Key → Bool × Option Reject
  unfolding decide_server_key
  check_server_key h presented = answer (decide_server_key h presented)
