-- ===== src/Ssh/KnownHosts.antt =====
-- `scan_known_hosts`, `check_known_host_file`, `decide_host_key` and `decide_certificate` of
-- src/ssh.rs. The parser of entries and the keys are ssh_key's, the check of hashed entries is
-- russh's; they are parameters.
pub mod Scan
pub mod Decide
pub mod Server
use shell_proxy.Prelude.{
  ℕ, suc, ◌+◌, ◌≡◌, Bool, true, false, not, ◌&&◌, ◌||◌, List, [], ◌∷◌, ◌++◌, Option, none, some,
  ◌==◌, ltb, leb, if◌then◌else◌, Text, codes, Result, ok, err, is_empty, is_whitespace, trim, lines,
  split_on, split_whitespace, starts_with,
}
use shell_proxy.Ssh.Pattern.{match_pattern_list}

pub data Marker : Type 0 where
  revoked : Marker
  cert_authority : Marker

pub data HostPatterns : Type 0 where
  patterns : List Text → HostPatterns
  hashed_name : HostPatterns

pub record Entry (Key : Type 0) : Type 0 where
  pub marker : Option Marker
  pub host_patterns : HostPatterns
  pub public_key : Key

-- `KnownHostCheck`; a line has its number, a russh error its text.
pub data Detail : Type 0 where
  at_line : ℕ → Detail
  reason : Text → Detail

pub data KnownHostCheck : Type 0 where
  matched : KnownHostCheck
  absent : KnownHostCheck
  changed : ℕ → KnownHostCheck
  revoked_at : ℕ → KnownHostCheck
  malformed : Detail → KnownHostCheck

-- The field of the hosts, behind a marker if there is one.
abbrev pub host_field : List Text → Option Text
host_field [] = some []
host_field (w ∷ []) = if starts_with (codes "@") w then none else some w
host_field (w ∷ v ∷ ws) = if starts_with (codes "@") w then some v else some w

abbrev pub targets : Option Text → Text → Bool
targets none lookup = false
targets (some h) lookup =
    if starts_with (codes "|1|") h
    then false
    else match_pattern_list lookup (split_on (λ c. c == b',') h)

unfoldable pub raw_entry_targets_host : Text → Text → Bool
unfolding split_whitespace
raw_entry_targets_host line lookup = targets (host_field (split_whitespace line)) lookup

-- `line.is_empty() || line.starts_with('#')`
abbrev pub is_skipped : Text → Bool
is_skipped line = if is_empty line then true else starts_with (codes "#") line

abbrev pub is_matched : KnownHostCheck → Bool
is_matched matched = true
is_matched _ = false

abbrev pub is_absent : KnownHostCheck → Bool
is_absent absent = true
is_absent _ = false

abbrev pub host_match : Text → HostPatterns → Bool
host_match lookup (patterns ps) = match_pattern_list lookup ps
host_match lookup hashed_name = false

-- One line of the loop: a verdict that goes on, or one that is returned.
pub data Line : Type 0 where
  verdict : KnownHostCheck → Line
  return : KnownHostCheck → Line

abbrev pub after_line : Line → (KnownHostCheck → KnownHostCheck) → KnownHostCheck
after_line (verdict v) next = next v
after_line (return v) next = v

module _ {Key : Type 0} (parse : Text → Option (Entry Key))
    (same_key same_algorithm : Key → Key → Bool) where
  -- An entry whose hosts match: this key, another key of the algorithm, or no signal.
  unfoldable pub matched_entry : ℕ → Key → Key → KnownHostCheck → KnownHostCheck
  matched_entry num recorded key v =
      if same_key recorded key
      then matched
      else if same_algorithm recorded key && is_absent v
      then changed num
      else v

  unfoldable pub plain_entry : Text → Key → Bool → ℕ → Entry Key → KnownHostCheck → KnownHostCheck
  unfolding matched_entry
  plain_entry lookup key cert num entry v =
      if cert
      then v
      else if host_match lookup entry.host_patterns
      then matched_entry num entry.public_key key v
      else v

  unfoldable pub marked_entry :
      Text → Key → Bool → ℕ → Entry Key → Option Marker → KnownHostCheck → Line
  unfolding plain_entry
  marked_entry lookup key cert num entry (some revoked) v =
      if same_key entry.public_key key then return (revoked_at num) else verdict v
  marked_entry lookup key cert num entry (some cert_authority) v = verdict v
  marked_entry lookup key cert num entry none v = verdict (plain_entry lookup key cert num entry v)

  unfoldable pub parsed_line :
      Text → Key → Bool → ℕ → Text → Option (Entry Key) → KnownHostCheck → Line
  unfolding marked_entry raw_entry_targets_host
  parsed_line lookup key cert num line none v =
      if not (is_matched v) && raw_entry_targets_host line lookup
      then return (malformed (at_line num))
      else verdict v
  parsed_line lookup key cert num line (some entry) v =
      marked_entry lookup key cert num entry entry.marker v

  unfoldable pub scan_line : Text → Key → Bool → ℕ → Text → KnownHostCheck → Line
  unfolding parsed_line
  scan_line lookup key cert num line v =
      if is_skipped line then verdict v else parsed_line lookup key cert num line (parse line) v

  -- The loop over the lines, the first of which has the number `no`.
  unfoldable pub scan_lines : Text → Key → Bool → ℕ → List Text → KnownHostCheck → KnownHostCheck
  unfolding scan_line trim
  scan_lines lookup key cert num [] v = v
  scan_lines lookup key cert num (raw ∷ rest) v =
      after_line (scan_line lookup key cert num (trim raw) v)
        (scan_lines lookup key cert (num + 1) rest)

  unfoldable pub scan_known_hosts : Text → Text → Key → Bool → KnownHostCheck
  unfolding scan_lines lines
  scan_known_hosts text lookup key cert = scan_lines lookup key cert 1 (lines text) absent

-- `from_hashed_fallback`, with russh's answer.
pub data HashedError : Type 0 where
  key_changed : ℕ → HashedError
  other : Text → HashedError

unfoldable pub from_hashed_fallback : Result Bool HashedError → KnownHostCheck
from_hashed_fallback (ok true) = matched
from_hashed_fallback (ok false) = absent
from_hashed_fallback (err (key_changed n)) = changed n
from_hashed_fallback (err (other e)) = malformed (reason e)

-- `match scan { Absent => ..., other => other }`
abbrev pub or_hashed : KnownHostCheck → Result Bool HashedError → KnownHostCheck
or_hashed absent r = from_hashed_fallback r
or_hashed v r = v

-- `HostKeyDecision`, with the reason of a rejection in place of its text.
pub data Reject : Type 0 where
  key_revoked : ℕ → Reject
  key_changed_at : ℕ → Reject
  malformed_entry : Detail → Reject
  no_file : Reject
  not_found : Reject
  certificate : Reject

pub data HostKeyDecision : Type 0 where
  accept : HostKeyDecision
  reject : Reject → HostKeyDecision

-- Behind the loop; `some_checked` is whether any file was checked.
unfoldable pub unrecorded : Bool → Bool → HostKeyDecision
unrecorded strict some_checked =
    if strict then if some_checked then reject not_found else reject no_file else accept

-- The loop over the files, each of which has its check.
unfoldable pub decide_files : Bool → Bool → List KnownHostCheck → HostKeyDecision
unfolding unrecorded
decide_files strict some_checked [] = unrecorded strict some_checked
decide_files strict some_checked (matched ∷ cs) = accept
decide_files strict some_checked (absent ∷ cs) = decide_files strict true cs
decide_files strict some_checked (revoked_at n ∷ cs) = reject (key_revoked n)
decide_files strict some_checked (changed n ∷ cs) = reject (key_changed_at n)
decide_files strict some_checked (malformed d ∷ cs) = reject (malformed_entry d)

unfoldable pub decide_host_key : Bool → List KnownHostCheck → HostKeyDecision
unfolding decide_files
decide_host_key strict checks = decide_files strict false checks

unfoldable pub decide_certificate : Bool → List KnownHostCheck → HostKeyDecision
decide_certificate strict [] = if strict then reject certificate else accept
decide_certificate strict (revoked_at n ∷ cs) = reject (key_revoked n)
decide_certificate strict (_ ∷ cs) = decide_certificate strict cs
