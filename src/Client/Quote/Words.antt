-- ===== src/Client/Quote/Words.antt =====
-- How a POSIX shell reads one simple command into words, for the command lines of src/client.rs:
-- blanks, quotes, backslashes and the expansion of HOME. A character with another meaning outside
-- quotes is refused, so that what is read has no other reading. What a first word means as a reserved
-- word or an assignment is not part of it.
use shell_proxy.Prelude.{
  ℕ, ◌++◌, Bool, false, not, ◌||◌, ◌&&◌, List, [], ◌∷◌, Option, none, some, ◌==◌, if◌then◌else◌,
  all, Text, codes, is_ascii_alphanumeric, eq_text,
}

-- The part of a line that the reader is in; `variable` has the name so far.
pub data Mode : Type 0 where
  outside : Mode
  bare : Mode
  single : Mode
  escaped : Mode
  variable : Text → Mode

-- What one character does: it adds a text to the word, ends the word, or is none of it.
pub data Move : Type 0 where
  go : Mode → Text → Move
  cut : Text → Move
  skip : Move
  refuse : Move

abbrev is_blank : ℕ → Bool
is_blank c = (c == 32) || (c == 9)

-- XCU 2.2: characters with a meaning of their own outside quotes, those of patterns, comments,
-- tildes and history included; blanks, quotes, the backslash and `$` are read elsewhere.
abbrev actives : Text
actives = codes "|&;<>()`\"*?[]#~{}!^" ++ 10 ∷ []

abbrev mem : ℕ → Text → Bool
mem c [] = false
mem c (d ∷ s) = (c == d) || mem c s

unfoldable pub is_plain : ℕ → Bool
is_plain c = not (is_blank c || ((c == 39) || ((c == 92) || ((c == b'$') || mem c actives))))

abbrev is_name : ℕ → Bool
is_name c = is_ascii_alphanumeric c || (c == b'_')

abbrev bare_move : ℕ → Move
bare_move c =
    if is_plain c
    then go bare (c ∷ [])
    else if is_blank c
    then cut []
    else if c == 39
    then go single []
    else if c == 92
    then go escaped []
    else if c == b'$'
    then go (variable []) []
    else refuse

-- A move behind the value of a variable.
abbrev behind : Option Text → Move → Move
behind none m = refuse
behind (some t) (go m u) = go m (t ++ u)
behind (some t) (cut u) = cut (t ++ u)
behind (some t) skip = skip
behind (some t) refuse = refuse

abbrev add : Text → Option (List Text) → Option (List Text)
add t none = none
add t (some []) = none
add t (some (w ∷ ws)) = some ((t ++ w) ∷ ws)

abbrev add_word : Text → Option (List Text) → Option (List Text)
add_word t none = none
add_word t (some ws) = some (t ∷ ws)

abbrev apply : Move → (Mode → Option (List Text)) → Option (List Text)
apply (go m t) next = add t (next m)
apply (cut t) next = add_word t (next outside)
apply skip next = next outside
apply refuse next = none

abbrev last_word : Option Text → Option (List Text)
last_word none = none
last_word (some t) = some (t ∷ [])

-- `home` is the value of HOME, which is taken as it is when field splitting and patterns leave it.
module _ (home : Text) where
  abbrev pub value : Text → Option Text
  value name = if eq_text name (codes "HOME") && all is_plain home then some home else none

  unfoldable pub move : Mode → ℕ → Move
  move outside c = if is_blank c then skip else bare_move c
  move bare c = bare_move c
  move single c = if c == 39 then go bare [] else go single (c ∷ [])
  move escaped c = if c == 10 then refuse else go bare (c ∷ [])
  move (variable name) c =
      if is_name c then go (variable (name ++ c ∷ [])) [] else behind (value name) (bare_move c)

  -- Inside a word the first of the result is the rest of that word.
  unfoldable pub words_from : Mode → Text → Option (List Text)
  unfolding move
  words_from outside [] = some []
  words_from bare [] = some ([] ∷ [])
  words_from single [] = none
  words_from escaped [] = none
  words_from (variable name) [] = last_word (value name)
  words_from m (c ∷ s) = apply (move m c) (λ m. words_from m s)

  unfoldable pub words : Text → Option (List Text)
  unfolding words_from
  words = words_from outside
