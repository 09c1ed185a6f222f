-- ===== src/Config.antt =====
-- Settings from the command line, the environment and config.toml: `resolve_host` and
-- `resolve_session` of src/config.rs, the timeouts of src/main.rs and `check_timeout_ms` of
-- src/lib.rs. The environment and the loaded file are arguments.
pub mod Bounds
mod Tests
use shell_proxy.Prelude.{
  ℕ, ◌+◌, ◌-◌, ◌*◌, ◌^◌, ◌≡◌, Bool, true, false, ◌&&◌, List, [], ◌∷◌, Option, none, some, ◌==◌, ltb,
  leb, if◌then◌else◌, min, Result, ok, err, ◌>>=◌, map_err, Text,
}
use shell_proxy.Proto.Session.{SessionNameError, SessionId, parse, default}

pub data ConfigError : Type 0 where
  not_a_number : ConfigError
  timeout_too_large : ℕ → ConfigError
  default_timeout_secs : ConfigError → ConfigError
  file : Text → ConfigError
  no_host : ConfigError
  invalid_session : SessionNameError → ConfigError

abbrev pub max_timeout_ms : ℕ
max_timeout_ms = 24 * 60 * 60 * 1000

unfoldable pub check_timeout_ms : ℕ → Result (Unit {0}) ConfigError
check_timeout_ms ms = if ltb max_timeout_ms ms then err (timeout_too_large ms) else ok tt

-- `str::parse::<u64>`: digits behind an optional plus, below 2 ^ 64.
unfoldable pub digits : ℕ → Text → Option ℕ
digits n [] = some n
digits n (c ∷ s) =
    let m = 10 * n + (c - b'0') in
    let rest = digits m s in
    if leb b'0' c && leb c b'9' then if ltb m (2 ^ 64) then rest else none else none

unfoldable pub unsigned : Text → Option ℕ
unfolding digits
unsigned [] = none
unsigned (c ∷ s) = digits 0 (c ∷ s)

unfoldable pub parse_u64 : Text → Option ℕ
unfolding unsigned
parse_u64 [] = none
parse_u64 (c ∷ s) = if c == b'+' then unsigned s else unsigned (c ∷ s)

-- `secs.saturating_mul(1000)`
abbrev pub to_ms : ℕ → ℕ
to_ms secs = min (secs * 1000) (2 ^ 64 - 1)

abbrev pub number : Option ℕ → Result ℕ ConfigError
number none = err not_a_number
number (some n) = ok n

unfoldable pub parse_timeout_secs : Text → Result ℕ ConfigError
unfolding check_timeout_ms parse_u64
parse_timeout_secs s = do secs ← number (parse_u64 s); u ← check_timeout_ms (to_ms secs); ok secs

-- The seconds of the option, or of the loaded file.
unfoldable pub timeout_secs : Option ℕ → Result ℕ ConfigError → Result ℕ ConfigError
unfolding check_timeout_ms
timeout_secs (some secs) config = ok secs
timeout_secs none config = do
  secs ← config
  u ← map_err default_timeout_secs (check_timeout_ms (to_ms secs))
  ok secs

unfoldable pub effective_timeout_ms :
    Option ℕ → Result ℕ ConfigError → Result (Option ℕ) ConfigError
unfolding timeout_secs
effective_timeout_ms timeout config = do
  secs ← timeout_secs timeout config
  ok (if ltb 0 secs then some (to_ms secs) else none)

-- A text that counts: `filter(|h| !h.is_empty())`.
abbrev pub filled : Option Text → Option Text
filled none = none
filled (some []) = none
filled (some (c ∷ s)) = some (c ∷ s)

abbrev pub or_no_host : Option Text → Result Text ConfigError
or_no_host none = err no_host
or_no_host (some h) = ok h

-- `resolve_host` with the option, the variable, and `load_config`'s host.
unfoldable pub resolve_host :
    Option Text → Option Text → Result (Option Text) ConfigError → Result Text ConfigError
resolve_host (some h) env config = ok h
resolve_host none env config = elim (filled env) [
  | some h ↦ ok h
  | none ↦ config >>= λ host. or_no_host (filled host)
]

unfoldable pub resolve_session : Option Text → Option Text → Result SessionId ConfigError
resolve_session (some s) env = map_err invalid_session (parse s)
resolve_session none env = elim (filled env) [
  | some s ↦ map_err invalid_session (parse s)
  | none ↦ ok default
]
