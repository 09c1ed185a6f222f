-- ===== src/SshConfig/Expansion.antt =====
-- What the expansion of src/ssh_config.rs makes of a command that is made of literals and tokens.
use shell_proxy.Prelude.{
  ℕ, ◌≡◌, refl, ap, ◌∙◌, List, [], ◌∷◌, ◌++◌, map, concat, All, false, ◌||◌, Text, ◌==◌,
}
use shell_proxy.SshConfig.Tokens.{
  Target, insert_value, decimal, local_name, token, expand_from, expand_tokens,
}

-- The parts of a command; `other` is a percent with a character that names no token.
pub data Part : Type 0 where
  literal : ℕ → Part
  percent host_name given_name port_number remote_user local : Part
  other : ℕ → Part

abbrev pub print : Part → Text
print (literal c) = c ∷ []
print percent = b'%' ∷ b'%' ∷ []
print host_name = b'%' ∷ b'h' ∷ []
print given_name = b'%' ∷ b'n' ∷ []
print port_number = b'%' ∷ b'p' ∷ []
print remote_user = b'%' ∷ b'r' ∷ []
print local = b'%' ∷ b'u' ∷ []
print (other c) = b'%' ∷ c ∷ []

unfoldable pub meaning : Target → Part → Text
unfolding insert_value decimal local_name
meaning t (literal c) = c ∷ []
meaning t percent = b'%' ∷ []
meaning t host_name = insert_value t.hostname t.escape
meaning t given_name = insert_value t.hostname t.escape
meaning t port_number = decimal t.port
meaning t remote_user = insert_value t.user t.escape
meaning t local = local_name t t.local_user
meaning t (other c) = b'%' ∷ c ∷ []

abbrev pub IsPart : Part → Type 0
IsPart (literal c) = (c == b'%') ≡ false
IsPart (other c) =
    ((c == b'%') ≡ false)
    × (((c == b'h') || (c == b'n')) ≡ false)
    × ((c == b'p') ≡ false)
    × ((c == b'r') ≡ false)
    × ((c == b'u') ≡ false)
IsPart percent = Unit
IsPart host_name = Unit
IsPart given_name = Unit
IsPart port_number = Unit
IsPart remote_user = Unit
IsPart local = Unit

expand_part :
    (t : Target) (p : Part) (s : Text)
    → IsPart p
    → expand_from t false (print p ++ s) ≡ meaning t p ++ expand_from t false s
unfolding expand_from meaning token
expand_part t (literal c) s h = rw (h, expand_from) refl
expand_part t percent s h = refl
expand_part t host_name s h = refl
expand_part t given_name s h = refl
expand_part t port_number s h = refl
expand_part t remote_user s h = refl
expand_part t local s h = refl
expand_part t (other c) s (h1, h2, h3, h4, h5) = rw (h1, h2, h3, h4, h5, expand_from) refl

expand_parts :
    (t : Target) (ps : List Part)
    → All IsPart ps
    → expand_from t false (concat (map print ps)) ≡ concat (map (meaning t) ps)
unfolding expand_from
expand_parts t [] h = refl
expand_parts t (p ∷ ps) (h, hs) =
    expand_part t p (concat (map print ps)) h ∙ ap (λ s. meaning t p ++ s) (expand_parts t ps hs)

-- A command of literals, doubled percents, tokens and percents in front of a character that is no
-- token becomes what its parts stand for, where nothing that is inserted is expanded again.
pub expand_tokens-print :
    (t : Target) (ps : List Part)
    → All IsPart ps
    → expand_tokens t (concat (map print ps)) ≡ concat (map (meaning t) ps)
unfolding expand_tokens
expand_tokens-print = expand_parts
