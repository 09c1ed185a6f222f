-- ===== src/Client/Quote.antt =====
-- The command lines of src/client.rs and src/main.rs: quoting of words and remote paths, and the
-- text that `sp` sends for its arguments.
pub mod Words
pub mod RoundTrip
pub mod Paths
use shell_proxy.Prelude.{
  ℕ, ◌≡◌, Bool, true, false, ◌&&◌, List, [], ◌∷◌, ◌++◌, map, Option, none, some, ◌==◌,
  if◌then◌else◌, all, Text, codes, is_ascii_alphanumeric,
}
use shell_proxy.Proto.Frame.{ExecRequest}

unfoldable pub bare_char : ℕ → Bool
bare_char c =
    if is_ascii_alphanumeric c
    then true
    else if c == b'_'
    then true
    else if c == b'-'
    then true
    else if c == b'.'
    then true
    else if c == b'/'
    then true
    else if c == b'='
    then true
    else if c == b':'
    then true
    else if c == b','
    then true
    else if c == b'%'
    then true
    else if c == b'@'
    then true
    else c == b'+'

unfoldable pub is_bare_word : Text → Bool
is_bare_word [] = false
is_bare_word (c ∷ s) = all bare_char (c ∷ s)

-- `s.replace('\'', r"'\''")`
unfoldable pub replace_quotes : Text → Text
replace_quotes [] = []
replace_quotes (c ∷ s) =
    let rest = replace_quotes s in if c == 39 then 39 ∷ 92 ∷ 39 ∷ 39 ∷ rest else c ∷ rest

unfoldable pub shell_quote : Text → Text
unfolding is_bare_word replace_quotes
shell_quote s = if is_bare_word s then s else 39 ∷ (replace_quotes s ++ 39 ∷ [])

-- `strip_prefix` of one character.
unfoldable pub strip_prefix : ℕ → Text → Option Text
strip_prefix c [] = none
strip_prefix c (d ∷ s) = if d == c then some s else none

-- The text behind `~/`, when there is any.
unfoldable pub home_tail : Option Text → Option Text
unfolding strip_prefix
home_tail none = none
home_tail (some []) = none
home_tail (some (c ∷ [])) = none
home_tail (some (c ∷ d ∷ s)) = strip_prefix b'/' (c ∷ d ∷ s)

-- The `match` behind the early return: `~` and `~/` alone are the home itself.
unfoldable pub other_path : Text → Text
unfolding shell_quote
other_path [] = shell_quote []
other_path (c ∷ []) = if c == b'~' then codes "$HOME" else shell_quote (c ∷ [])
other_path (c ∷ d ∷ []) =
    if (c == b'~') && (d == b'/') then codes "$HOME" else shell_quote (c ∷ d ∷ [])
other_path (c ∷ d ∷ e ∷ s) = shell_quote (c ∷ d ∷ e ∷ s)

unfoldable pub with_tail : Text → Option Text → Text
unfolding other_path shell_quote
with_tail remote none = other_path remote
with_tail remote (some tail) = codes "$HOME/" ++ shell_quote tail

unfoldable pub quote_remote_path : Text → Text
unfolding with_tail home_tail strip_prefix
quote_remote_path remote = with_tail remote (home_tail (strip_prefix b'~' remote))

-- `join(" ")`
unfoldable pub join_words : List Text → Text
join_words [] = []
join_words (w ∷ []) = w
join_words (w ∷ v ∷ ws) = w ++ 32 ∷ join_words (v ∷ ws)

unfoldable pub join_command : List Text → Text
unfolding join_words
join_command [] = join_words []
join_command (single ∷ []) = single
join_command (a ∷ b ∷ many) = join_words (map shell_quote (a ∷ b ∷ many))

-- The branch of `build_command` for arguments: the command and the positional parameters.
unfoldable pub from_words : List Text → Option Text → Option (Text × List Text)
unfolding join_command is_bare_word
from_words [] none = none
from_words [] (some script) = some (script, [])
from_words (only ∷ []) script =
    if is_bare_word only then some (join_command (only ∷ []), []) else some (only, [])
from_words (a ∷ b ∷ many) script = some (join_command (a ∷ b ∷ many), [])

-- `build_command`, behind the reading of the file: `file` is its text.
unfoldable pub build_command : Option Text → List Text → Option Text → Option (Text × List Text)
unfolding from_words
build_command none words script = from_words words script
build_command (some text) words script = some (text, words)

unfoldable pub upload_request : Text → Text → Text → Option Text → Option ℕ → ExecRequest
unfolding quote_remote_path
upload_request host session remote cwd timeout_ms = record {
  host = host;
  command = codes "cat > " ++ quote_remote_path remote;
  args = [];
  cwd = cwd;
  timeout_ms = timeout_ms;
  session = some session;
}

unfoldable pub download_request : Text → Text → Text → Option Text → Option ℕ → ExecRequest
unfolding quote_remote_path
download_request host session remote cwd timeout_ms = record {
  host = host;
  command = codes "cat " ++ quote_remote_path remote;
  args = [];
  cwd = cwd;
  timeout_ms = timeout_ms;
  session = some session;
}
