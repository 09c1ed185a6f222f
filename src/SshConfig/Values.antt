-- ===== src/SshConfig/Values.antt =====
-- Values of `ssh -G`: `unquote` and `split_values` of src/ssh_config.rs.
use shell_proxy.Prelude.{
  ℕ, List, [], ◌∷◌, ◌++◌, map, Option, none, some, Bool, false, ◌&&◌, ◌||◌, Text, is_empty,
  is_whitespace, trim, ◌==◌, if◌then◌else◌,
}

-- `ends_with`, and all but the last character.
abbrev pub ends_in : ℕ → Text → Bool
ends_in q [] = false
ends_in q (c ∷ []) = c == q
ends_in q (c ∷ d ∷ s) = ends_in q (d ∷ s)

abbrev pub front : Text → Text
front [] = []
front (c ∷ []) = []
front (c ∷ d ∷ s) = c ∷ front (d ∷ s)

-- A text of two characters at least that starts and ends with one of the quotes loses both; a
-- quote is one byte, so the length in bytes and in characters make the same test.
abbrev pub unquoted : Text → Text
unquoted [] = []
unquoted (c ∷ []) = c ∷ []
unquoted (c ∷ d ∷ s) =
    if ((c == b'"') && ends_in b'"' (d ∷ s)) || ((c == b'\'') && ends_in b'\'' (d ∷ s))
    then front (d ∷ s)
    else c ∷ d ∷ s

unfoldable pub unquote : Text → Text
unfolding trim
unquote v = unquoted (trim v)

abbrev pub is_quote : ℕ → Bool
is_quote c = (c == b'"') || (c == b'\'')

-- The pieces so far, the piece at hand, and the open quote.
pub record Split : Type 0 where
  pub out : List Text
  pub cur : Text
  pub quote : Option ℕ

abbrev pub take_cur : Split → List Text
take_cur s = if is_empty s.cur then s.out else s.out ++ s.cur ∷ []

abbrev pub with_char : ℕ → Split → Split
with_char c s = record s { cur = s.cur ++ c ∷ [] }

unfoldable pub split_char : ℕ → Option ℕ → Split → Split
unfolding is_whitespace
split_char c (some q) s = if c == q then with_char c (record s { quote = none }) else with_char c s
split_char c none s =
    if is_quote c
    then with_char c (record s { quote = some c })
    else if is_whitespace c
    then record { out = take_cur s; cur = []; quote = none }
    else with_char c s

unfoldable pub split_from : Text → Split → Split
unfolding split_char
split_from [] s = s
split_from (c ∷ cs) s = split_from cs (split_char c s.quote s)

unfoldable pub split_values : Text → List Text
unfolding split_from unquote
split_values value =
    map unquote (take_cur (split_from value (record { out = []; cur = []; quote = none })))
