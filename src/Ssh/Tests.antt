-- ===== src/Ssh/Tests.antt =====
-- Host keys of src/ssh.rs at concrete inputs.
use shell_proxy.Prelude.{
  if◌then◌else◌, ℕ, ◌≡◌, ◌↔◌, refl, Bool, true, false, List, [], ◌∷◌, ◌++◌, map, Option, none, some,
  ◌==◌, Text, codes, eq_text, to_ascii_lowercase, ok, err, from_utf8_lossy, ◌≤◌, ◌*◌,
}
use shell_proxy.Prelude.{lines, trim, is_whitespace}
use shell_proxy.Ssh.Auth.{Reply, accepted, failure, other_key, authenticate, go_on}
use shell_proxy.Ssh.Pattern.{match_pattern, match_pattern_list}
use shell_proxy.Ssh.Pattern.Glob.{Glob}
use shell_proxy.Ssh.Pattern.Matcher.{match_pattern-Glob}
use shell_proxy.Ssh.Pattern.Lists.{HasHit, HasNoVeto, match_pattern_list_iff}
use shell_proxy.Ssh.KnownHosts.{
  revoked, patterns, Entry, matched, absent, scan_known_hosts, decide_host_key, accept,
}
use shell_proxy.Ssh.KnownHosts.Scan.{
  IsRevoking, Recorded, scan_known_hosts-matched, revoked-decide_host_key,
}
use shell_proxy.Ssh.Connect.{World, connect, ends, auth_timed_out}
use shell_proxy.Ssh.Connect.Bounded.{IsEnd, connect-IsEnd}
use Prim.Native.String.{String}
use shell_proxy.SshConfig.{ResolvedHost}
use shell_proxy.Ssh.KnownHosts.Server.{Library, certificate, host_key_lookup_name, check_server_key}
use shell_proxy.Ssh.KnownHosts.Server.Vouched.{Any, Vouches, check_server_key-Vouches}
use shell_proxy.Ssh.KnownHosts.Decide.{IsFound, decide_host_key-accept_iff}

match_pattern-Glob_example :
    (b : Bool) × (match_pattern (codes "a.example") (codes "*.ex?mple") ≡ some b)
    × ((b ≡ true) ↔ Glob (codes "*.ex?mple") (codes "a.example"))
match_pattern-Glob_example = match_pattern-Glob (codes "a.example") (codes "*.ex?mple")

-- The unit test `glob_match_pattern`.
stars : match_pattern (codes "abcbcd") (codes "a*bcd") ≡ some true
unfolding match_pattern
stars = refl

one_character : match_pattern (codes "") (codes "?") ≡ some false
unfolding match_pattern
one_character = refl

match_pattern_list_iff_example :
    (match_pattern_list (codes "BOX") (codes "b*" ∷ codes "!bad" ∷ []) ≡ true)
    ↔ HasHit (map to_ascii_lowercase (codes "BOX")) (codes "b*" ∷ codes "!bad" ∷ [])
      × HasNoVeto (map to_ascii_lowercase (codes "BOX")) (codes "b*" ∷ codes "!bad" ∷ [])
match_pattern_list_iff_example =
    match_pattern_list_iff (codes "BOX") (codes "b*" ∷ codes "!bad" ∷ [])

-- A small stand-in for the parser of entries, with numbers for keys.
abbrev parse_entry : Text → Option (Entry ℕ)
parse_entry line =
    if eq_text line (codes "box k7")
    then some
        (record { marker = none; host_patterns = patterns (codes "box" ∷ []); public_key = 7 })
    else if eq_text line (codes "@revoked * k7")
    then some (record {
      marker = some revoked;
      host_patterns = patterns (codes "*" ∷ []);
      public_key = 7;
    })
    else none

abbrev same_key : ℕ → ℕ → Bool
same_key a b = a == b

abbrev same_algorithm : ℕ → ℕ → Bool
same_algorithm a b = true

abbrev file : Text
file = codes "box k7" ++ 10 ∷ (codes "  @revoked * k7" ++ 10 ∷ [])

two_recorded : lines file ≡ (codes "box k7" ∷ []) ++ codes "  @revoked * k7" ∷ []
unfolding lines
two_recorded = refl

revokes : IsRevoking parse_entry same_key same_algorithm 7 (codes "  @revoked * k7")
unfolding trim is_whitespace eq_text
revokes = (
  record { marker = some revoked; host_patterns = patterns (codes "*" ∷ []); public_key = 7 },
  refl,
  refl,
  refl,
  refl,
)

revoked-decide_host_key_example : ¬ (
    decide_host_key false (
      absent
      ∷ scan_known_hosts parse_entry same_key same_algorithm file (codes "box") 7 false
      ∷ matched
      ∷ [])
    ≡ accept)
revoked-decide_host_key_example =
    revoked-decide_host_key parse_entry same_key same_algorithm file (codes "box") 7
      (codes "box k7" ∷ []) [] (codes "  @revoked * k7") false (absent ∷ []) (matched ∷ [])
      two_recorded revokes (refl, tt)

records :
    scan_known_hosts parse_entry same_key same_algorithm (codes "box k7") (codes "box") 7 false
    ≡ matched
unfolding scan_known_hosts lines trim is_whitespace match_pattern_list eq_text
records = refl

scan_known_hosts-matched_example :
    Recorded parse_entry same_key same_algorithm (codes "box") 7 false (lines (codes "box k7"))
    × ((front back : List Text) (raw : Text)
        → lines (codes "box k7") ≡ front ++ raw ∷ back
        → ¬ IsRevoking parse_entry same_key same_algorithm 7 raw)
scan_known_hosts-matched_example =
    scan_known_hosts-matched parse_entry same_key same_algorithm (codes "box k7") (codes "box") 7
      false records

decide_host_key-accept_iff_example :
    (decide_host_key true (absent ∷ matched ∷ []) ≡ accept) ↔ IsFound (absent ∷ matched ∷ [])
decide_host_key-accept_iff_example = decide_host_key-accept_iff (absent ∷ matched ∷ [])

-- A server that rejects the keys of the agent and would accept the first file.
abbrev accepts_seventh : ℕ → Reply
accepts_seventh n = if n == 6 then accepted else failure true

abbrev six_identities : List ℕ
six_identities = 1 ∷ 2 ∷ 3 ∷ 4 ∷ 5 ∷ 6 ∷ []

-- A large agent leaves no attempt to the files.
files_starved :
    authenticate accepts_seventh six_identities [] (other_key ∷ [])
    ≡ go_on (record { attempts = 6; offered = true })
unfolding authenticate
files_starved = refl

-- One known_hosts file; russh finds no hashed entry.
abbrev with_file : String → Library ℕ
with_file text = record {
  parse = parse_entry;
  same_key = same_key;
  same_algorithm = same_algorithm;
  check_hashed = λ host port key path. ok false;
  is_file = λ path. eq_text path (codes "k");
  read = λ path. some (codes text);
}

abbrev resolved : Bool → ResolvedHost
resolved strict = record {
  hostname = codes "h.example";
  port = 22;
  user = codes "u";
  identity_files = [];
  known_hosts_files = codes "/dev/null" ∷ codes "k" ∷ [];
  proxy_command = none;
  connect_timeout = none;
  strict_host_keys = strict;
  host_key_alias = some (codes "box");
}

other_port : host_key_lookup_name (codes "h") 2222 ≡ codes "[h]:2222"
unfolding host_key_lookup_name
other_port = refl

-- A line in front that does not parse hides the revocation from a certificate.
hidden_revocation :
    ((check_server_key (with_file "@revoked * k7") (resolved false) (certificate 7)).0 ≡ false)
    × ((check_server_key (with_file "box junk\n@revoked * k7") (resolved false) (certificate 7)).0
        ≡ true)
unfolding check_server_key scan_known_hosts from_utf8_lossy match_pattern_list
hidden_revocation = (refl, refl)

check_server_key-Vouches_example :
    Any (Vouches (with_file "box k7") (resolved true) 7) (resolved true).known_hosts_files
unfolding check_server_key scan_known_hosts from_utf8_lossy match_pattern_list
check_server_key-Vouches_example =
    check_server_key-Vouches (with_file "box k7") (resolved true) 7 refl refl

abbrev reachable : Option ℕ → World
reachable auth = record {
  spawned = ok tt;
  tcp = (some 12, ok tt);
  handshake = (some 80, ok tt);
  hostkey_reason = none;
  authentication = (auth, ok tt);
}

-- An authentication that hangs is given up when the time for the setup is over.
wedged : connect (resolved true) (reachable none) ≡ ends 30012 (err auth_timed_out)
unfolding connect
wedged = refl

connect-IsEnd_example :
    (45000 ≤ 2 * 86400000)
    × IsEnd (reachable (some 700)) 45000 false (connect (resolved true) (reachable (some 700)))
connect-IsEnd_example = connect-IsEnd (resolved true) (reachable (some 700))
