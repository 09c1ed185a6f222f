-- ===== src/Proto/Session/Charset.antt =====
-- What `SessionId::parse` of crates/sp-proto/src/session.rs accepts, and which error it gives.
use shell_proxy.Prelude.{
  ℕ, ◌≤◌, ◌<◌, ◌≡◌, refl, ap, ◌≢◌, ◌↔◌, ◌⊎◌, inl, inr, true, false, List, [], ◌∷◌, ◌++◌, Option,
  none, some, arith, ltb, Bool-cases, ltb→lt, Result, ok, err, Text, str_len, All,
}
use shell_proxy.Proto.Session.{
  SessionNameError, empty, too_long, bad_char, SessionId, is_allowed, find_bad, check_chars, parse,
}

-- `[A-Za-z0-9._-]`, as the documentation of the name states it.
abbrev pub IsNameChar : ℕ → Type 0
IsNameChar c =
    ((b'A' ≤ c) × (c ≤ b'Z'))
    ⊎ (((b'a' ≤ c) × (c ≤ b'z'))
        ⊎ (((b'0' ≤ c) × (c ≤ b'9')) ⊎ ((c ≡ b'.') ⊎ ((c ≡ b'_') ⊎ (c ≡ b'-')))))

abbrev pub IsName : Text → Type 0
IsName s = (s ≢ []) × (str_len s ≤ 64) × All IsNameChar s

-- The reason that an error states.
abbrev pub IsReason : SessionNameError → Text → Type 0
IsReason empty s = s ≡ []
IsReason (too_long n) s = (n ≡ str_len s) × (64 < n)
IsReason (bad_char c) s =
    (str_len s ≤ 64)
    × (front : Text) × (back : Text) × (s ≡ front ++ c ∷ back)
    × All IsNameChar front
    × (¬ IsNameChar c)

is_allowed→IsNameChar : (c : ℕ) → is_allowed c ≡ true → IsNameChar c
unfolding is_allowed
is_allowed→IsNameChar c h = ground arith

not-allowed→not-IsNameChar : (c : ℕ) → is_allowed c ≡ false → ¬ IsNameChar c
unfolding is_allowed
not-allowed→not-IsNameChar c h = ground arith

find_bad-none : (s : Text) → find_bad s ≡ none → All IsNameChar s
unfolding find_bad
find_bad-none [] h = tt
find_bad-none (c ∷ s) h = ground (arith, is_allowed→IsNameChar c, find_bad-none s)

find_bad-some :
    (s : Text) (c : ℕ)
    → find_bad s ≡ some c
    → (front : Text) × (back : Text) × (s ≡ front ++ c ∷ back)
      × All IsNameChar front
      × (¬ IsNameChar c)
unfolding find_bad
find_bad-some [] c h = cc
find_bad-some (d ∷ s) c h = elim (Bool-cases (is_allowed d)) [
  | inl good ↦
      let (front, back, split, clean, bad) = find_bad-some s c (rw good at h) in
      (d ∷ front, back, ap (λ (t : Text). d ∷ t) split, (is_allowed→IsNameChar d good, clean), bad)
  | inr bad ↦
      let same : d ≡ c = cc (rw bad at h) in
      ([], s, rw same, tt, rw same at (not-allowed→not-IsNameChar d bad))
]

All_append_mid {ℓ κ} :
    {A : Type ℓ} (P : A → Type κ) (xs ys : List A) (y : A) → All P (xs ++ y ∷ ys) → P y
All_append_mid P [] ys y h = h.0
All_append_mid P (x ∷ xs) ys y h = All_append_mid P xs ys y h.1

IsReason→not-IsName : (e : SessionNameError) (s : Text) → IsReason e s → ¬ IsName s
IsReason→not-IsName empty s r n = n.0 r
IsReason→not-IsName (too_long k) s r n = omega arith
IsReason→not-IsName (bad_char c) s (_, front, back, split, _, bad) (_, _, clean) =
    bad (All_append_mid IsNameChar front back c (rw split at clean))

-- Both outcomes of `parse`, each with what it says of the name.
abbrev IsVerdict : Text → Result SessionId SessionNameError → Type 0
IsVerdict s (ok id) = (id ≡ record { name = s }) × IsName s
IsVerdict s (err e) = IsReason e s

check-IsVerdict :
    (s : Text) (bad : Option ℕ)
    → find_bad s ≡ bad
    → s ≢ []
    → str_len s ≤ 64
    → IsVerdict s (check_chars s bad)
unfolding check_chars
check-IsVerdict s none e some_name short = (refl, (some_name, short, find_bad-none s e))
check-IsVerdict s (some c) e some_name short =
    let (front, back, split, clean, bad) = find_bad-some s c e in
    (short, front, back, split, clean, bad)

parse-IsVerdict : (s : Text) → IsVerdict s (parse s)
unfolding parse
parse-IsVerdict [] = refl
parse-IsVerdict (c ∷ s) = elim (Bool-cases (ltb 64 (str_len (c ∷ s)))) [
  | inl long ↦ rw long (refl, ltb→lt _ _ long)
  | inr short ↦ rw short (check-IsVerdict (c ∷ s) (find_bad (c ∷ s)) refl (λ e. cc) (ground arith))
]

ok_of_verdict :
    (s : Text) (r : Result SessionId SessionNameError)
    → IsVerdict s r
    → IsName s
    → r ≡ ok (record { name = s })
ok_of_verdict s (ok id) v n = ap ok v.0
ok_of_verdict s (err e) v n = absurd (IsReason→not-IsName e s v n)

-- `parse` accepts exactly the names that are not empty, take at most 64 bytes and are made of
-- `A-Z a-z 0-9 . _ -` alone, and the session it returns has the very name that was given.
pub parse_ok_iff :
    (s : Text) (id : SessionId) → (parse s ≡ ok id) ↔ ((id ≡ record { name = s }) × IsName s)
parse_ok_iff s id = (
  λ h. rw h at (parse-IsVerdict s),
  λ (e, n). rw e (ok_of_verdict s (parse s) (parse-IsVerdict s) n),
)

-- Whenever `parse` refuses a name its error tells the reason: `empty` is given for the empty name
-- alone, `too_long` carries the length in bytes, above 64, and `bad_char` carries the first
-- character outside the allowed set, in a name that is not too long.
pub parse_err-IsReason : (s : Text) (e : SessionNameError) → parse s ≡ err e → IsReason e s
parse_err-IsReason s e h = rw h at (parse-IsVerdict s)
