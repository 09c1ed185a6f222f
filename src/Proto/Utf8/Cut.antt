-- ===== src/Proto/Utf8/Cut.antt =====
-- What `truncate_utf8` of crates/sp-proto/src/lib.rs cuts off.
use shell_proxy.Prelude.{
  ℕ, zero, suc, ◌+◌, ◌-◌, ◌≤◌, ◌<◌, ◌≡◌, refl, ap, sym, inl, inr, true, [], ◌∷◌, ◌++◌, some, arith,
  leb, if◌then◌else◌, Bool-cases, leb→le, tests, Text, len_utf8, str_len, len_utf8_pos,
}
use shell_proxy.Proto.Utf8.{is_char_boundary, slice_to, boundary_below, truncate_utf8}

-- The characters that fit, taken greedily from the front.
pub fit : Text → ℕ → Text
fit [] m = []
fit (c ∷ s) m = if leb (len_utf8 c) m then c ∷ fit s (m - len_utf8 c) else []

is_char_boundary_zero : (s : Text) → is_char_boundary s 0 ≡ true
unfolding is_char_boundary
is_char_boundary_zero [] = refl
is_char_boundary_zero (c ∷ s) = refl

boundary_below_inside : (c : ℕ) (s : Text) (m : ℕ) → m < len_utf8 c → boundary_below (c ∷ s) m ≡ 0
unfolding boundary_below is_char_boundary
boundary_below_inside c s zero h = refl
boundary_below_inside c s (suc m) h = ground (arith, boundary_below_inside c s m)

boundary_below_past :
    (c : ℕ) (s : Text) (m k : ℕ)
    → m ≡ len_utf8 c + k
    → boundary_below (c ∷ s) m ≡ len_utf8 c + boundary_below s k
unfolding boundary_below is_char_boundary
boundary_below_past c s zero k e = absurd (omega (arith, len_utf8_pos c))
boundary_below_past c s (suc m) zero e =
    let at_zero : suc m - len_utf8 c ≡ 0 = omega arith in
    ground (arith, at_zero, is_char_boundary_zero s)
boundary_below_past c s (suc m) (suc k) e =
    let at_rest : suc m - len_utf8 c ≡ suc k = omega arith in
    ground (arith, at_rest, len_utf8_pos c, boundary_below_past c s m k (omega arith))

boundary_below_nil : (m : ℕ) → boundary_below [] m ≡ 0
unfolding boundary_below is_char_boundary
boundary_below_nil zero = refl
boundary_below_nil (suc m) = ground (arith, boundary_below_nil m)

slice_to_past :
    (c : ℕ) (s t : Text) (k : ℕ)
    → slice_to s k ≡ some t
    → slice_to (c ∷ s) (len_utf8 c + k) ≡ some (c ∷ t)
unfolding slice_to
slice_to_past c s t k h =
    let at_rest : len_utf8 c + k - len_utf8 c ≡ k = omega arith in
    ground (arith, at_rest, len_utf8_pos c)

-- The loop stops at the end of the greedy prefix.
slice_to-boundary_below : (s : Text) (m : ℕ) → slice_to s (boundary_below s m) ≡ some (fit s m)
unfolding fit
slice_to-boundary_below [] m = rw (boundary_below_nil m) (unfold slice_to in refl)
slice_to-boundary_below (c ∷ s) m = elim (Bool-cases (leb (len_utf8 c) m)) [
  | inl fits ↦
      let rest : m ≡ len_utf8 c + (m - len_utf8 c) = omega tests in
      rw (fits, boundary_below_past c s m (m - len_utf8 c) rest)
        (slice_to_past c s _ _ (slice_to-boundary_below s (m - len_utf8 c)))
  | inr cut ↦ rw (cut, boundary_below_inside c s m (ground arith)) (unfold slice_to in refl)
]

fit_whole : (s : Text) (m : ℕ) → str_len s ≤ m → fit s m ≡ s
unfolding fit
fit_whole [] m h = refl
fit_whole (c ∷ s) m h = ground (arith, fit_whole s (m - len_utf8 c))

truncate_utf8-fit : (s : Text) (m : ℕ) → truncate_utf8 s m ≡ some (fit s m)
unfolding truncate_utf8
truncate_utf8-fit s m = elim (Bool-cases (leb (str_len s) m)) [
  | inl whole ↦ rw whole (ap some (sym (fit_whole s m (leb→le _ _ whole))))
  | inr long ↦ rw long (slice_to-boundary_below s m)
]

-- Nothing is left, or the next character is past the limit.
abbrev pub IsCut : Text → ℕ → Text → Type 0
IsCut t m [] = Unit {0}
IsCut t m (c ∷ rest) = m < str_len t + len_utf8 c

-- `t` is the longest prefix of `s` that takes at most `m` bytes.
abbrev pub IsLongestPrefix : Text → ℕ → Text → Type 0
IsLongestPrefix s m t = (rest : Text) × (s ≡ t ++ rest) × (str_len t ≤ m) × IsCut t m rest

IsCut-cons :
    (c : ℕ) (t : Text) (m : ℕ) (rest : Text)
    → len_utf8 c ≤ m
    → IsCut t (m - len_utf8 c) rest
    → IsCut (c ∷ t) m rest
IsCut-cons c t m [] h k = tt
IsCut-cons c t m (d ∷ rest) h k = omega arith

fit-IsLongestPrefix : (s : Text) (m : ℕ) → IsLongestPrefix s m (fit s m)
unfolding fit
fit-IsLongestPrefix [] m = ([], refl, omega arith, tt)
fit-IsLongestPrefix (c ∷ s) m = elim (Bool-cases (leb (len_utf8 c) m)) [
  | inl fits ↦
      let (rest, split, short, cut) = fit-IsLongestPrefix s (m - len_utf8 c) in
      rw fits (
        rest,
        ap (λ (u : Text). c ∷ u) split,
        omega tests,
        IsCut-cons c _ m rest (leb→le _ _ fits) cut,
      )
  | inr past ↦ rw past (c ∷ s, refl, omega arith, ground arith)
]

-- For every text and every limit `truncate_utf8` returns without a panic, and what it returns is
-- the longest prefix of whole characters that takes at most `max_bytes` bytes.
pub truncate_utf8_longest :
    (s : Text) (max_bytes : ℕ)
    → (t : Text) × (truncate_utf8 s max_bytes ≡ some t) × IsLongestPrefix s max_bytes t
truncate_utf8_longest s max_bytes =
    (fit s max_bytes, truncate_utf8-fit s max_bytes, fit-IsLongestPrefix s max_bytes)
