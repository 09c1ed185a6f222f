-- ===== src/Ssh/Pattern/Glob.antt =====
-- What the backtracking loop of `match_pattern` in src/ssh.rs keeps: a glob has a match exactly
-- when the rest of the pattern has one here, or the last `*` absorbs more.
use shell_proxy.Prelude.{
  ℕ, zero, suc, ◌+◌, ◌≤◌, ◌<◌, ◌≡◌, ◌≢◌, ◌↔◌, ◌⊎◌, inl, inr, refl, sym, ap, subst, ◌∙◌, true, false,
  [], ◌∷◌, ◌++◌, none, some, Bool-cases, ==_iff, arith, ◌==◌, Text, All, length, length-append,
  append_assoc, All-append,
}
use shell_proxy.Ssh.Pattern.{Star, Round, go_on, answer, backtrack, round, rounds}

-- OpenSSH's meaning of a pattern: `*` stands for any text, `?` for one character, and any other
-- character for itself.
pub Glob : Text → Text → Type 0
Glob [] s = s ≡ []
Glob (e ∷ p) s =
    ((e ≡ b'*') × (u : Text) × (v : Text) × (s ≡ u ++ v) × Glob p v)
    ⊎ ((e ≢ b'*') × (c : ℕ) × (t : Text) × (s ≡ c ∷ t) × ((e ≡ b'?') ⊎ (c ≡ e)) × Glob p t)

-- A match behind some of the subject.
abbrev pub Behind : Text → Text → Type 0
Behind p s = (u : Text) × (v : Text) × (s ≡ u ++ v) × Glob p v

-- What the last `*` can still do, when it absorbs one character at least.
abbrev pub Later : Star → Type 0
Later none = ⊥
Later (some (after, [])) = ⊥
Later (some (after, c ∷ s)) = Behind after s

abbrev pub Open : Text → Text → Star → Type 0
Open s p star = Glob p s ⊎ Later star

-- The pattern since the last `*` has no other, and took as many characters of the subject.
abbrev pub Follows : Text → Text → Star → Type 0
Follows s p none = Unit {0}
Follows s p (some (after, at)) =
    (q : Text) × (u : Text) × (after ≡ q ++ p)
    × (at ≡ u ++ s)
    × (length u ≡ length q)
    × All (λ e. e ≢ b'*') q

Behind-step : (p s : Text) (c : ℕ) → Behind p s → Behind p (c ∷ s)
Behind-step p s c (u, v, e, g) = (c ∷ u, v, ap (λ (t : Text). c ∷ t) e, g)

-- A star-free front of a pattern takes as many characters as it has.
Glob-front :
    (q p x : Text)
    → All (λ e. e ≢ b'*') q
    → Glob (q ++ p) x
    → (u : Text) × (v : Text) × (x ≡ u ++ v) × (length u ≡ length q) × Glob p v
unfolding Glob
Glob-front [] p x free g = ([], x, refl, refl, g)
Glob-front (e ∷ q) p x (other, free) (inl (star, u, v, e', g)) = absurd (other star)
Glob-front (e ∷ q) p x (other, free) (inr (ne, c, t, split, fits, g)) =
    let (u, v, cut, same, h) = Glob-front q p t free g in
    (c ∷ u, v, split ∙ ap (λ (s : Text). c ∷ s) cut, ap suc same, h)

-- Two splits of one text.
split-le : (a b u s : Text) → a ++ b ≡ u ++ s → length u ≤ length a → (w : Text) × (s ≡ w ++ b)
split-le a b [] s e h = (a, sym e)
split-le [] b (x ∷ u) s e h = absurd (omega arith)
split-le (y ∷ a) b (x ∷ u) s e h =
    let rest : a ++ b ≡ u ++ s = cc in
    let shorter : length u ≤ length a = omega arith in split-le a b u s rest shorter

-- A new `*` makes the one in front of it needless.
Later-forget : (star : Star) (p s : Text) → Follows s (b'*' ∷ p) star → Later star → Behind p s
unfolding Glob
Later-forget none p s f l = elim l [ ]
Later-forget (some (after, [])) p s f l = elim l [ ]
Later-forget (some (after, c ∷ t)) p s (q, u, pattern, subject, same, free) (u1, v1, e1, g) =
    let (u2, v2, e2, len, g2) =
      Glob-front q (b'*' ∷ p) v1 free (subst (λ (x : Text). Glob x v1) pattern g) in
    elim g2 [
      | inl (star, u3, v3, e3, g3) ↦
          let whole : (c ∷ (u1 ++ (u2 ++ u3))) ++ v3 ≡ u ++ s =
            ap (λ (x : Text). c ∷ x)
              (append_assoc u1 (u2 ++ u3) v3
                ∙ ap (λ (x : Text). u1 ++ x) (append_assoc u2 u3 v3)
                ∙ sym (e1 ∙ ap (λ (x : Text). u1 ++ x) (e2 ∙ ap (λ (x : Text). u2 ++ x) e3)))
            ∙ subject in
          let fits : length u ≤ length (c ∷ (u1 ++ (u2 ++ u3))) =
            omega (arith, same, len, length-append u1 (u2 ++ u3), length-append u2 u3) in
          let (w, e) = split-le (c ∷ (u1 ++ (u2 ++ u3))) v3 u s whole fits in (w, v3, e, g3)
      | inr (ne, x, y, split, fits, h) ↦ absurd (ne refl)
    ]

-- What a round has to keep, for a bound `k` above the length of every pattern.
abbrev pub left : ℕ → Text → Star → ℕ
left k s none = rounds (suc (length s)) k
left k s (some (after, at)) = rounds (length at) k

abbrev pub FitsStar : ℕ → Star → Type 0
FitsStar k none = Unit {0}
FitsStar k (some (after, at)) = length after < k

-- The invariant of the loop, and what a round makes of it.
abbrev pub Keeps : ℕ → Text → Text → Star → Type 0
Keeps k s p star = Follows s p star × (length p < k) × FitsStar k star

abbrev pub IsRound : ℕ → Text → Text → Star → Round → Type 0
IsRound k s p star (answer b) = (b ≡ true) ↔ Open s p star
IsRound k s p star (go_on s' p' star') =
    Keeps k s' p' star'
    × (Open s p star ↔ Open s' p' star')
    × (left k s' star' + length p' < left k s star + length p)

rounds-le : (a b k : ℕ) → a ≤ b → rounds a k ≤ rounds b k
rounds-le zero b k h = omega arith
rounds-le (suc a) zero k h = absurd (omega arith)
rounds-le (suc a) (suc b) k h =
    let below : a ≤ b = omega arith in omega (arith, rounds-le a b k below)

Behind-split : (p t : Text) → Behind p t → Open t p (some (p, t))
Behind-split p [] ([], v, e, g) = inl (subst (Glob p) (sym e) g)
Behind-split p [] (x ∷ u, v, e, g) = cc
Behind-split p (c ∷ t) ([], v, e, g) = inl (subst (Glob p) (sym e) g)
Behind-split p (c ∷ t) (x ∷ u, v, e, g) = let rest : t ≡ u ++ v = cc in inr (u, v, rest, g)

Behind-join : (p t : Text) → Open t p (some (p, t)) → Behind p t
Behind-join p t (inl g) = ([], t, refl, g)
Behind-join p [] (inr l) = elim l [ ]
Behind-join p (c ∷ t) (inr l) = Behind-step p t c l

Follows-step :
    (c e : ℕ) (s p : Text) (star : Star)
    → (e == b'*') ≡ false
    → Follows (c ∷ s) (e ∷ p) star
    → Follows s p star
Follows-step c e s p none plain f = tt
Follows-step c e s p (some (after, at)) plain (q, u, pattern, subject, same, free) = (
  q ++ e ∷ [],
  u ++ c ∷ [],
  pattern ∙ sym (append_assoc q (e ∷ []) p),
  subject ∙ sym (append_assoc u (c ∷ []) s),
  omega (arith, same, length-append q (e ∷ []), length-append u (c ∷ [])),
  All-append (λ e. e ≢ b'*') q (e ∷ []) free ((λ star. ground arith), tt),
)

-- After a mismatch only the last `*` can help.
backtrack-IsRound :
    (k : ℕ) (s p : Text) (star : Star)
    → Keeps k s p star
    → ¬ Glob p s
    → IsRound k s p star (backtrack star)
unfolding backtrack
backtrack-IsRound k s p none inv no_match =
    (λ e. cc, λ spec. elim spec [ inl g ↦ absurd (no_match g) | inr l ↦ elim l [ ] ])
backtrack-IsRound k s p (some (after, [])) inv no_match =
    (λ e. cc, λ spec. elim spec [ inl g ↦ absurd (no_match g) | inr l ↦ elim l [ ] ])
backtrack-IsRound k s p (some (after, c ∷ t)) (f, pk, sk) no_match = (
  (([], [], refl, refl, refl, tt), sk, sk),
  (
    λ spec. elim spec [ inl g ↦ absurd (no_match g) | inr l ↦ Behind-split after t l ],
    λ spec. inr (Behind-join after t spec),
  ),
  omega (arith, sk),
)

left-le : (k c : ℕ) (s : Text) (star : Star) → left k s star ≤ left k (c ∷ s) star
left-le k c s none = rounds-le (suc (length s)) (suc (suc (length s))) k (omega arith)
left-le k c s (some (after, at)) = omega arith

not_star : (e : ℕ) → (e == b'*') ≡ false → e ≢ b'*'
not_star e plain star = ground arith

-- A character that fits: both go on by one.
match-IsRound :
    (k c e : ℕ) (s p : Text) (star : Star)
    → (e == b'*') ≡ false
    → (e ≡ b'?') ⊎ (c ≡ e)
    → Keeps k (c ∷ s) (e ∷ p) star
    → IsRound k (c ∷ s) (e ∷ p) star (go_on s p star)
unfolding Glob
match-IsRound k c e s p star plain fits (f, pk, sk) = (
  (Follows-step c e s p star plain f, omega (arith, pk), sk),
  (
    λ spec. elim spec [
      | inl (inl (same, u, v, split, g)) ↦ absurd (not_star e plain same)
      | inl (inr (ne, d, t, split, fit, g)) ↦ let rest : t ≡ s = cc in inl (subst (Glob p) rest g)
      | inr l ↦ inr l
    ],
    λ spec. elim spec [ inl g ↦ inl (inr (not_star e plain, c, s, refl, fits, g)) | inr l ↦ inr l ],
  ),
  omega (arith, left-le k c s star),
)

left-star :
    (k : ℕ) (s p : Text) (star : Star) → Follows s p star → rounds (length s) k ≤ left k s star
left-star k s p none f = rounds-le (length s) (suc (length s)) k (omega arith)
left-star k s p (some (after, at)) (q, u, pattern, subject, same, free) =
    rounds-le (length s) (length at) k
      (omega (arith, length-append u s, ap (λ (x : Text). length x) subject))

-- A `*` takes the place of the one in front of it.
star-IsRound :
    (k e : ℕ) (s p : Text) (star : Star)
    → e ≡ b'*'
    → Keeps k s (e ∷ p) star
    → IsRound k s (e ∷ p) star (go_on s p (some (p, s)))
unfolding Glob
star-IsRound k e s p star same (f, pk, sk) = (
  (([], [], refl, refl, refl, tt), omega (arith, pk), omega (arith, pk)),
  (
    λ spec. elim spec [
      | inl (inl (is_star, u, v, split, g)) ↦ Behind-split p s (u, v, split, g)
      | inl (inr (ne, d, t, split, fit, g)) ↦ absurd (ne same)
      | inr l ↦
          Behind-split p s
            (Later-forget star p s (subst (λ (x : ℕ). Follows s (x ∷ p) star) same f) l)
    ],
    λ spec. let (u, v, split, g) = Behind-join p s spec in inl (inl (same, u, v, split, g)),
  ),
  omega (arith, left-star k s (e ∷ p) star f),
)

no_subject : (e : ℕ) (p : Text) → (e == b'*') ≡ false → ¬ Glob (e ∷ p) []
unfolding Glob
no_subject e p plain (inl (same, u, v, split, g)) = not_star e plain same
no_subject e p plain (inr (ne, d, t, split, fit, g)) = cc

no_fit :
    (c e : ℕ) (s p : Text)
    → (e == b'*') ≡ false
    → (e == b'?') ≡ false
    → (c == e) ≡ false
    → ¬ Glob (e ∷ p) (c ∷ s)
unfolding Glob
no_fit c e s p plain one other (inl (same, u, v, split, g)) = not_star e plain same
no_fit c e s p plain one other (inr (ne, d, t, split, inl any, g)) = ground arith
no_fit c e s p plain one other (inr (ne, d, t, split, inr same, g)) =
    let alike : c ≡ e = cc in ground arith

-- Every round of the loop keeps the invariant and what is left to find, and comes nearer the end.
pub round-IsRound :
    (k : ℕ) (s p : Text) (star : Star) → Keeps k s p star → IsRound k s p star (round s p star)
unfolding round Glob
round-IsRound k [] [] star inv = (λ e. inl refl, λ spec. refl)
round-IsRound k (c ∷ s) [] star inv = backtrack-IsRound k (c ∷ s) [] star inv (λ g. cc)
round-IsRound k [] (e ∷ p) star inv = elim (Bool-cases (e == b'*')) [
  | inl same ↦ rw same (star-IsRound k e [] p star ((==_iff e b'*').0 same) inv)
  | inr plain ↦ rw plain (backtrack-IsRound k [] (e ∷ p) star inv (no_subject e p plain))
]
round-IsRound k (c ∷ s) (e ∷ p) star inv = elim (Bool-cases (e == b'*')) [
  | inl same ↦ rw same (star-IsRound k e (c ∷ s) p star ((==_iff e b'*').0 same) inv)
  | inr plain ↦ elim (Bool-cases (e == b'?')) [
    | inl any ↦
        rw (plain, any) (match-IsRound k c e s p star plain (inl ((==_iff e b'?').0 any)) inv)
    | inr one ↦ elim (Bool-cases (c == e)) [
      | inl alike ↦
          rw (plain, one, alike)
            (match-IsRound k c e s p star plain (inr ((==_iff c e).0 alike)) inv)
      | inr other ↦
          rw (plain, one, other)
            (backtrack-IsRound k (c ∷ s) (e ∷ p) star inv (no_fit c e s p plain one other))
    ]
  ]
]
