-- ===== src/Proto/Session.antt =====
-- crates/sp-proto/src/session.rs: validated session names. A `&str` is its list of characters.
pub mod Charset
use shell_proxy.Prelude.{
  ℕ, ◌+◌, ◌≤◌, ◌<◌, ◌≡◌, refl, Bool, true, false, not, List, [], ◌∷◌, Option, none, some, arith,
  ltb, leb, ◌==◌, if◌then◌else◌, Result, ok, err, Text, codes, str_len, is_ascii_alphanumeric,
}

abbrev pub default_name : Text
default_name = codes "default"

abbrev pub max_len : ℕ
max_len = 64

pub data SessionNameError : Type 0 where
  empty : SessionNameError
  too_long : ℕ → SessionNameError
  bad_char : ℕ → SessionNameError

-- `struct SessionId(String)`.
pub record SessionId : Type 0 where
  pub name : Text

unfoldable pub is_allowed : ℕ → Bool
is_allowed c =
    if is_ascii_alphanumeric c
    then true
    else if c == b'.'
    then true
    else if c == b'_'
    then true
    else c == b'-'

-- `s.chars().find(|c| !is_allowed(*c))`
pub find_bad : Text → Option ℕ
find_bad [] = none
find_bad (c ∷ s) = if not (is_allowed c) then some c else find_bad s

pub is_empty : Text → Bool
is_empty [] = true
is_empty (c ∷ s) = false

check_chars : Text → Option ℕ → Result SessionId SessionNameError
check_chars s (some c) = err (bad_char c)
check_chars s none = ok (record { name = s })

unfoldable pub parse : Text → Result SessionId SessionNameError
unfolding is_empty find_bad check_chars
parse s =
    if is_empty s
    then err empty
    else if ltb max_len (str_len s)
    then err (too_long (str_len s))
    else check_chars s (find_bad s)

-- `impl Default for SessionId`.
unfoldable pub default : SessionId
default = record { name = default_name }
