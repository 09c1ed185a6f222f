-- ===== src/Serve/Pipe/Report.antt =====
-- Which reports `read_pipe` of crates/sp-serve/src/serve.rs hands on.
use shell_proxy.Prelude.{
  is_utf8, ℕ, ◌+◌, ◌≤◌, ◌≡◌, ◌≢◌, refl, sym, ap, subst, ◌∙◌, ◌⊎◌, inl, inr, true, false, Bool-cases,
  List, [], ◌∷◌, ◌++◌, map, none, some, arith, ◌==◌, ltb, ==_iff, length, concat, All,
  length-append, append_assoc,
}
use shell_proxy.Proto.Frame.{Bytes}
use shell_proxy.Serve.Pipe.{bytes, until_nul, read_all, report_of, read_pipe}

abbrev pub IsNonNul : ℕ → Type 0
IsNonNul b = b ≢ 0

abbrev pub IsChunk : Bytes → Type 0
IsChunk c = c ≢ []

no_both : (b : ℕ) → (b == 0) ≡ false → IsNonNul b
no_both b other e = ground arith

pub within_cap : (cap n : ℕ) → n ≤ cap → ltb cap n ≡ false
within_cap cap n h = ground arith

-- The bytes in front of the first NUL, where there is one.
pub until_nul-cases :
    (c : Bytes)
    → ((until_nul c ≡ none) × All IsNonNul c)
      ⊎ ((f : Bytes) × (back : Bytes) × (until_nul c ≡ some f)
          × (c ≡ f ++ 0 ∷ back)
          × All IsNonNul f)
unfolding until_nul
until_nul-cases [] = inl (refl, tt)
until_nul-cases (b ∷ c) = elim (Bool-cases (b == 0)) [
  | inl nul ↦
      let zero_first : b ∷ c ≡ 0 ∷ c = ap (λ (x : ℕ). x ∷ c) ((==_iff b 0).0 nul) in
      inr ([], c, rw nul, zero_first, tt)
  | inr other ↦
      let live : IsNonNul b = λ e. no_both b other e in
      elim (until_nul-cases c) [
        | inl (e, clean) ↦ inl (rw (other, e), (live, clean))
        | inr (f, back, e, split, clean) ↦
            inr (b ∷ f, back, rw (other, e), ap (λ (t : Bytes). b ∷ t) split, (live, clean))
      ]
]

-- A front without a NUL lies in front of the first NUL.
front-split :
    (c x r y : Bytes)
    → All IsNonNul c
    → c ++ x ≡ r ++ 0 ∷ y
    → (r' : Bytes) × (r ≡ c ++ r') × (x ≡ r' ++ 0 ∷ y)
front-split [] x r y clean e = (r, refl, e)
front-split (a ∷ c) x [] y (live, clean) e = absurd (live cc)
front-split (a ∷ c) x (b ∷ r) y (live, clean) e =
    let same : a ≡ b = cc in
    let rest : c ++ x ≡ r ++ 0 ∷ y = cc in
    let (r', split, behind) = front-split c x r y clean rest in
    (r', rw same (ap (λ (t : Bytes). b ∷ t) split), behind)

front_unique : (f x r y : Bytes) → All IsNonNul f → All IsNonNul r → f ++ 0 ∷ x ≡ r ++ 0 ∷ y → f ≡ r
front_unique [] x [] y hf hr e = refl
front_unique [] x (b ∷ r) y hf (live, hr) e = absurd (live cc)
front_unique (a ∷ f) x [] y (live, hf) hr e = absurd (live cc)
front_unique (a ∷ f) x (b ∷ r) y (la, hf) (lb, hr) e =
    let same : a ≡ b = cc in
    let rest : f ++ 0 ∷ x ≡ r ++ 0 ∷ y = cc in let tails = front_unique f x r y hf hr rest in cc

clean-back : (c r : Bytes) → All IsNonNul (c ++ r) → All IsNonNul r
clean-back [] r h = h
clean-back (b ∷ c) r (live, h) = clean-back c r h

-- However the bytes arrive, the loop collects what lies in front of the NUL.
read_all-report :
    (cap : ℕ) (buf : Bytes) (cs : List Bytes) (report rest : Bytes)
    → All IsChunk cs
    → All IsNonNul report
    → concat cs ≡ report ++ 0 ∷ rest
    → length buf + length report ≤ cap
    → read_all cap buf false (map bytes cs) ≡ (buf ++ report, false)
unfolding read_all
read_all-report cap buf [] [] rest chunks clean e fits = cc
read_all-report cap buf [] (b ∷ report) rest chunks clean e fits = cc
read_all-report cap buf ([] ∷ cs) report rest (full, chunks) clean e fits = absurd (full refl)
read_all-report cap buf ((b ∷ c) ∷ cs) report rest (full, chunks) clean e fits =
    elim (until_nul-cases (b ∷ c)) [
      | inl (unfinished, live) ↦
          let (report', split, behind) = front-split (b ∷ c) (concat cs) report rest live e in
          let sizes : length report ≡ length (b ∷ c) + length report' =
            ap (λ (t : Bytes). length t) split ∙ length-append (b ∷ c) report' in
          let within : ltb cap (length (buf ++ b ∷ c)) ≡ false =
            within_cap cap (length (buf ++ b ∷ c))
              (omega (arith, fits, sizes, length-append buf (b ∷ c))) in
          rw (unfinished, within)
            (read_all-report cap (buf ++ b ∷ c) cs report' rest chunks
                (clean-back (b ∷ c) report' (subst (All IsNonNul) split clean)) behind
                (omega (arith, fits, sizes, length-append buf (b ∷ c)))
              ∙ ap (λ (t : Bytes). (t, false))
                  (append_assoc buf (b ∷ c) report' ∙ ap (λ (t : Bytes). buf ++ t) (sym split)))
      | inr (f, back, found, split, live) ↦
          let whole : f ++ 0 ∷ (back ++ concat cs) ≡ report ++ 0 ∷ rest =
            sym (append_assoc f (0 ∷ back) (concat cs))
            ∙ ap (λ (t : Bytes). t ++ concat cs) (sym split)
            ∙ e in
          rw found (
            ap (λ (t : Bytes). (buf ++ t, false))
              (front_unique f (back ++ concat cs) report rest live clean whole))
    ]

report_of-report :
    (report : Bytes) → report ≢ [] → is_utf8 report ≡ true → report_of (report, false) ≡ some report
unfolding report_of
report_of-report [] full valid = absurd (full refl)
report_of-report (b ∷ bs) full valid = rw valid

-- A nonempty report of valid UTF-8 that holds no NUL and keeps within the cap arrives whole once
-- its terminator does: however the bytes are cut into reads, and whatever another writer adds
-- behind the terminator.
pub read_pipe-report :
    (cap : ℕ) (cs : List Bytes) (report rest : Bytes)
    → All IsChunk cs
    → All IsNonNul report
    → concat cs ≡ report ++ 0 ∷ rest
    → report ≢ []
    → is_utf8 report ≡ true
    → length report ≤ cap
    → read_pipe cap (map bytes cs) ≡ some report
unfolding read_pipe
read_pipe-report cap cs report rest chunks clean e full valid fits =
    ap report_of (read_all-report cap [] cs report rest chunks clean e (omega (arith, fits)))
    ∙ report_of-report report full valid
