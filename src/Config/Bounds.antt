-- ===== src/Config/Bounds.antt =====
-- What the settings of src/config.rs and src/main.rs can be.
use shell_proxy.Prelude.{
  ℕ, ◌≤◌, ◌≡◌, refl, sym, ap, subst, inl, inr, Bool-cases, [], ◌∷◌, Option, none, some, arith, ltb,
  ltb→lt, Result, ok, err, >>=-eq-ok, map_err, Text,
}
use shell_proxy.Proto.Session.{SessionId, parse, default, default_name, is_allowed}
use shell_proxy.Proto.Session.Charset.{IsName, parse_ok_iff}
use shell_proxy.Config.{
  ConfigError, check_timeout_ms, parse_u64, to_ms, number, parse_timeout_secs, timeout_secs,
  effective_timeout_ms, resolve_session,
}

-- What the parser of the command line lets through.
abbrev pub IsParsed : Option ℕ → Type 0
IsParsed none = Unit {0}
IsParsed (some secs) = (s : Text) × (parse_timeout_secs s ≡ ok secs)

check_timeout_ms-le :
    (secs : ℕ) (u : Unit {0}) → check_timeout_ms (to_ms secs) ≡ ok u → secs ≤ 86400
unfolding check_timeout_ms
check_timeout_ms-le secs u h = ground arith

parse_timeout_secs-le : (s : Text) (secs : ℕ) → parse_timeout_secs s ≡ ok secs → secs ≤ 86400
unfolding parse_timeout_secs
parse_timeout_secs-le s secs h =
    let (n, e, rest) = >>=-eq-ok (number (parse_u64 s)) _ h in
    let (u, checked, last) = >>=-eq-ok (check_timeout_ms (to_ms n)) _ rest in
    let same : n ≡ secs = cc in omega (arith, same, check_timeout_ms-le n u checked)

pub map_err-ok :
    {A : Type 0} {E F : Type 0} (f : E → F) (r : Result A E) (a : A) → map_err f r ≡ ok a → r ≡ ok a
map_err-ok f (ok b) a h = cc
map_err-ok f (err e) a h = cc

timeout_secs-le :
    (t : Option ℕ) (config : Result ℕ ConfigError) (secs : ℕ)
    → IsParsed t
    → timeout_secs t config ≡ ok secs
    → secs ≤ 86400
unfolding timeout_secs
timeout_secs-le (some n) config secs (s, parsed) h =
    let same : n ≡ secs = cc in omega (arith, same, parse_timeout_secs-le s n parsed)
timeout_secs-le none config secs p h =
    let (n, e, rest) = >>=-eq-ok config _ h in
    let (u, checked, last) =
      >>=-eq-ok (map_err ConfigError.default_timeout_secs (check_timeout_ms (to_ms n))) _ rest in
    let same : n ≡ secs = cc in
    omega
      (arith, same, check_timeout_ms-le n u (map_err-ok _ (check_timeout_ms (to_ms n)) u checked))

-- Whether the timeout of a command comes from the option or from the file, when there is one it is
-- at least a second and at most 24 hours.
pub effective_timeout_ms-le :
    (t : Option ℕ) (config : Result ℕ ConfigError) (ms : ℕ)
    → IsParsed t
    → effective_timeout_ms t config ≡ ok (some ms)
    → (1000 ≤ ms) × (ms ≤ 86400000)
unfolding effective_timeout_ms
effective_timeout_ms-le t config ms p h =
    let (secs, e, last) = >>=-eq-ok (timeout_secs t config) _ h in
    let small : secs ≤ 86400 = timeout_secs-le t config secs p e in
    elim (Bool-cases (ltb 0 secs)) [
      | inl positive ↦
          let same : to_ms secs ≡ ms = cc (rw positive at last) in
          (omega (arith, same, small, ltb→lt 0 secs positive), omega (arith, same, small))
      | inr zero ↦ absurd (cc (rw zero at last))
    ]

parse-IsName : (s : Text) (id : SessionId) → parse s ≡ ok id → IsName id.name
parse-IsName s id h =
    let (same, good) = (parse_ok_iff s id).0 h in
    subst IsName (ap (λ (i : SessionId). i.name) (sym same)) good

valid_default : parse default_name ≡ ok default
unfolding parse is_allowed default
valid_default = refl

chosen-IsName :
    (env : Option Text) (id : SessionId) → resolve_session none env ≡ ok id → IsName id.name
unfolding resolve_session
chosen-IsName none id h =
    let same : default ≡ id = cc in
    subst IsName (ap (λ (i : SessionId). i.name) same)
      (parse-IsName default_name default valid_default)
chosen-IsName (some []) id h =
    let same : default ≡ id = cc in
    subst IsName (ap (λ (i : SessionId). i.name) same)
      (parse-IsName default_name default valid_default)
chosen-IsName (some (c ∷ s)) id h =
    parse-IsName (c ∷ s) id (map_err-ok ConfigError.invalid_session (parse (c ∷ s)) id h)

-- Whatever the option and the environment hold, a session that is resolved has a valid name.
pub resolve_session-IsName :
    (cli env : Option Text) (id : SessionId) → resolve_session cli env ≡ ok id → IsName id.name
unfolding resolve_session
resolve_session-IsName none env id h = chosen-IsName env id h
resolve_session-IsName (some s) env id h =
    parse-IsName s id (map_err-ok ConfigError.invalid_session (parse s) id h)
