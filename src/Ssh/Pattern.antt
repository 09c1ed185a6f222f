-- ===== src/Ssh/Pattern.antt =====
-- `match_pattern` and `match_pattern_list` of src/ssh.rs. A text is the list of its characters.
pub mod Glob
pub mod Matcher
pub mod Lists
use shell_proxy.Prelude.{
  ℕ, zero, suc, ◌+◌, ◌≡◌, Bool, true, false, List, [], ◌∷◌, map, Option, none, some, ◌==◌,
  if◌then◌else◌, length, Text, to_ascii_lowercase,
}

-- The last `*`: the pattern after it, and the subject position when it was seen.
abbrev pub Star : Type 0
Star = Option (Text × Text)

-- One round of the loop: it goes on, or returns.
pub data Round : Type 0 where
  go_on : Text → Text → Star → Round
  answer : Bool → Round

-- A mismatch: the last `*` absorbs one more character of the subject.
unfoldable pub backtrack : Star → Round
backtrack none = answer false
backtrack (some (after, [])) = answer false
backtrack (some (after, c ∷ s)) = go_on s after (some (after, s))

unfoldable pub round : Text → Text → Star → Round
unfolding backtrack
round [] [] star = answer true
round (c ∷ s) [] star = backtrack star
round [] (e ∷ p) star = if e == b'*' then go_on [] p (some (p, [])) else backtrack star
round (c ∷ s) (e ∷ p) star =
    if e == b'*'
    then go_on (c ∷ s) p (some (p, c ∷ s))
    else if e == b'?'
    then go_on s p star
    else if c == e
    then go_on s p star
    else backtrack star

-- What the loop does after a round; `next` is the loop itself.
abbrev pub after_round : Round → (Text → Text → Star → Option Bool) → Option Bool
after_round (go_on s p star) next = next s p star
after_round (answer b) next = some b

-- The loop; `none` says that the fuel ran out.
unfoldable pub match_loop : ℕ → Text → Text → Star → Option Bool
unfolding round
match_loop zero s p star = none
match_loop (suc fuel) s p star = after_round (round s p star) (match_loop fuel)

-- `rounds n k` is `n` times `k`. A subject position is tried once, with a pattern's length of rounds.
abbrev pub rounds : ℕ → ℕ → ℕ
rounds zero k = 0
rounds (suc n) k = k + rounds n k

unfoldable pub match_pattern : Text → Text → Option Bool
unfolding match_loop
match_pattern s pattern =
    match_loop (rounds (suc (suc (length s))) (suc (length pattern))) s pattern none

abbrev pub is_match : Text → Text → Bool
is_match s pattern = elim (match_pattern s pattern) [ none ↦ false | some b ↦ b ]

-- The pattern behind a `!`, and whether there is one.
abbrev pub strip_bang : Text → Bool × Text
strip_bang [] = (false, [])
strip_bang (c ∷ p) = if c == b'!' then (true, p) else (false, c ∷ p)

-- The loop over the patterns, with `got_positive`.
unfoldable pub match_patterns : Text → Bool → List Text → Bool
unfolding match_pattern
match_patterns host positive [] = positive
match_patterns host positive (p ∷ ps) =
    let (negated, pattern) = strip_bang p in
    let with_match = match_patterns host true ps in
    let without = match_patterns host positive ps in
    if is_match host (map to_ascii_lowercase pattern)
    then if negated then false else with_match
    else without

unfoldable pub match_pattern_list : Text → List Text → Bool
unfolding match_patterns
match_pattern_list host patterns = match_patterns (map to_ascii_lowercase host) false patterns
