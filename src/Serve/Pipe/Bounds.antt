-- ===== src/Serve/Pipe/Bounds.antt =====
-- How long a report of `read_pipe` in crates/sp-serve/src/serve.rs can be.
use shell_proxy.Prelude.{
  is_utf8, ℕ, ◌+◌, ◌≤◌, ◌≡◌, ◌≢◌, ap, subst, inl, inr, Bool, true, false, Bool-cases, List, [], ◌∷◌,
  ◌++◌, some, arith, ltb, length, All, length-append, All-append,
}
use shell_proxy.Proto.Frame.{Bytes}
use shell_proxy.Serve.Pipe.{Got, bytes, failed, read_all, report_of, read_pipe}
use shell_proxy.Serve.Pipe.Report.{IsNonNul, until_nul-cases}

-- The buffer of a read has 4096 bytes.
abbrev pub IsRead : Got → Type 0
IsRead (bytes c) = length c ≤ 4096
IsRead failed = Unit {0}

-- What the loop keeps: an end without an overflow is short and free of NUL.
abbrev IsShort : ℕ → Bytes × Bool → Type 0
IsShort cap (b, true) = Unit {0}
IsShort cap (b, false) = (length b ≤ cap + 4095) × All IsNonNul b

abbrev Held : ℕ → Bytes → Bool → Type 0
Held cap buf true = Unit {0}
Held cap buf false = (length buf ≤ cap) × All IsNonNul buf

Held-IsShort :
    (cap : ℕ) (buf : Bytes) (overflow : Bool) → Held cap buf overflow → IsShort cap (buf, overflow)
Held-IsShort cap buf true h = tt
Held-IsShort cap buf false (short, clean) = (omega (arith, short), clean)

below_cap : (cap n : ℕ) → ltb cap n ≡ false → n ≤ cap
below_cap cap n h = ground arith

read_all-IsShort :
    (cap : ℕ) (buf : Bytes) (overflow : Bool) (reads : List Got)
    → All IsRead reads
    → Held cap buf overflow
    → IsShort cap (read_all cap buf overflow reads)
unfolding read_all
read_all-IsShort cap buf overflow [] r h = Held-IsShort cap buf overflow h
read_all-IsShort cap buf overflow (failed ∷ rs) r h = Held-IsShort cap buf overflow h
read_all-IsShort cap buf overflow (bytes [] ∷ rs) r h = Held-IsShort cap buf overflow h
read_all-IsShort cap buf true (bytes (b ∷ c) ∷ rs) (fits, r) h =
    read_all-IsShort cap buf true rs r tt
read_all-IsShort cap buf false (bytes (b ∷ c) ∷ rs) (fits, r) (short, clean) =
    elim (until_nul-cases (b ∷ c)) [
      | inl (unfinished, live) ↦ elim (Bool-cases (ltb cap (length (buf ++ b ∷ c)))) [
        | inl over ↦ rw (unfinished, over) (read_all-IsShort cap (buf ++ b ∷ c) true rs r tt)
        | inr within ↦
            rw (unfinished, within)
              (read_all-IsShort cap (buf ++ b ∷ c) false rs r (
                below_cap cap (length (buf ++ b ∷ c)) within,
                All-append IsNonNul buf (b ∷ c) clean live,
              ))
      ]
      | inr (f, back, found, split, live) ↦ rw found (
        omega (
          arith,
          short,
          fits,
          length-append buf f,
          length-append f (0 ∷ back),
          ap (λ (t : Bytes). length t) split,
        ),
        All-append IsNonNul buf f clean live,
      )
    ]

report_of-some :
    (cap : ℕ) (o : Bytes × Bool) (s : Bytes)
    → IsShort cap o
    → report_of o ≡ some s
    → (length s ≤ cap + 4095) × (is_utf8 s ≡ true) × (s ≢ []) × All IsNonNul s
unfolding report_of
report_of-some cap (buf, true) s h e = cc
report_of-some cap ([], false) s h e = cc
report_of-some cap (b ∷ bs, false) s (short, clean) e = elim (Bool-cases (is_utf8 (b ∷ bs))) [
  | inl valid ↦
      let same : b ∷ bs ≡ s = cc (rw valid at e) in
      subst
        (λ (t : Bytes). (length t ≤ cap + 4095) × (is_utf8 t ≡ true) × (t ≢ []) × All IsNonNul t)
        same (short, valid, (λ e. cc), clean)
  | inr broken ↦ absurd (cc (rw broken at e))
]

-- A report that is handed on is nonempty valid UTF-8 without a NUL, and longer than the cap by less
-- than one read: the read that brings the terminator is not measured against the cap.
pub read_pipe-le :
    (cap : ℕ) (reads : List Got) (s : Bytes)
    → All IsRead reads
    → read_pipe cap reads ≡ some s
    → (length s ≤ cap + 4095) × (is_utf8 s ≡ true) × (s ≢ []) × All IsNonNul s
unfolding read_pipe
read_pipe-le cap reads s r e =
    report_of-some cap (read_all cap [] false reads) s
      (read_all-IsShort cap [] false reads r (omega arith, tt)) e
