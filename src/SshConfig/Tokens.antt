-- ===== src/SshConfig/Tokens.antt =====
-- The tokens of a ProxyCommand: `insert_value` and `expand_tokens` of src/ssh_config.rs.
use shell_proxy.Prelude.{
  ℕ, zero, suc, ◌+◌, ◌/◌, ◌%◌, [], ◌∷◌, ◌++◌, Option, none, some, Bool, true, false, ◌||◌, Text,
  codes, ◌==◌, ltb, if◌then◌else◌,
}

-- What the tokens stand for.
pub record Target : Type 0 where
  pub hostname : Text
  pub port : ℕ
  pub user : Text
  pub local_user : Option Text
  pub escape : Bool

-- `replace('%', "%%")`
unfoldable pub double_percents : Text → Text
double_percents [] = []
double_percents (c ∷ s) =
    let rest = double_percents s in if c == b'%' then b'%' ∷ b'%' ∷ rest else c ∷ rest

unfoldable pub insert_value : Text → Bool → Text
unfolding double_percents
insert_value v escape = if escape then double_percents v else v

-- `to_string` of a number with as many digits as `fuel` and one.
unfoldable pub decimal_from : ℕ → ℕ → Text
decimal_from zero n = (b'0' + n % 10) ∷ []
decimal_from (suc fuel) n =
    let front = decimal_from fuel (n / 10) in
    let last = (b'0' + n % 10) ∷ [] in if ltb n 10 then last else front ++ last

-- A port is below 2 ^ 16.
unfoldable pub decimal : ℕ → Text
unfolding decimal_from
decimal = decimal_from 4

unfoldable pub local_name : Target → Option Text → Text
unfolding insert_value
local_name t none = codes "%u"
local_name t (some u) = insert_value u t.escape

-- What stands for the character behind a percent.
unfoldable pub token : Target → ℕ → Text
unfolding insert_value decimal local_name
token t c =
    if c == b'%'
    then b'%' ∷ []
    else if (c == b'h') || (c == b'n')
    then insert_value t.hostname t.escape
    else if c == b'p'
    then decimal t.port
    else if c == b'r'
    then insert_value t.user t.escape
    else if c == b'u'
    then local_name t t.local_user
    else b'%' ∷ c ∷ []

-- The pass over the characters, `true` behind a percent.
unfoldable pub expand_from : Target → Bool → Text → Text
unfolding token
expand_from t false [] = []
expand_from t true [] = b'%' ∷ []
expand_from t true (c ∷ s) = token t c ++ expand_from t false s
expand_from t false (c ∷ s) = elim (c == b'%') [
  | true ↦ expand_from t true s
  | false ↦ c ∷ expand_from t false s
]

unfoldable pub expand_tokens : Target → Text → Text
unfolding expand_from
expand_tokens t cmd = expand_from t false cmd
