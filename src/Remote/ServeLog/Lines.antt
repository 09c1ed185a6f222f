-- ===== src/Remote/ServeLog/Lines.antt =====
-- The lines that `ServeLog` writes, however the standard error of sp-serve is cut into chunks.
use shell_proxy.Prelude.{
  ℕ, ◌≡◌, refl, sym, ap, ◌∙◌, inl, inr, List, [], ◌∷◌, ◌++◌, map, map-append, concat, true, false,
  ◌&&◌, Bool-cases, Text, is_empty, is_whitespace, trim_end, starts_line_feed, lines, ◌==◌, ==_iff,
  if◌then◌else◌, extend, from_utf8_lossy, append_assoc, append-nil,
}
use shell_proxy.Proto.Frame.{Bytes}
use shell_proxy.Remote.ServeLog.{ServeLog, empty_log, attach, drain, feed, flush}

unfoldable pub feeds : List Bytes → ServeLog → ServeLog
feeds [] g = g
feeds (b ∷ bs) g = feeds bs (feed g b)

-- What the whole text, drained and flushed, writes.
left : Text → List Text
unfolding trim_end
left rest = if is_empty rest then [] else trim_end rest ∷ []

total : List Text × Text → List Text
unfolding trim_end left
total (ls, rest) = map trim_end ls ++ left rest

-- A character in front of a trimmed line, and of the first of trimmed lines.
trimmed : ℕ → Text → Text
unfolding is_whitespace
trimmed c t = if is_whitespace c && is_empty t then [] else c ∷ t

onto : ℕ → List Text → List Text
unfolding trimmed
onto c [] = trimmed c [] ∷ []
onto c (t ∷ ts) = trimmed c t ∷ ts

step : ℕ → List Text → List Text
unfolding onto
step c ts = if c == 10 then [] ∷ ts else onto c ts

total-attach : (c : ℕ) (p : List Text × Text) → total (attach c p) ≡ onto c (total p)
unfolding total left onto trim_end trimmed
total-attach c ([], []) = refl
total-attach c ([], d ∷ r) = refl
total-attach c (l ∷ ls, r) = refl

total-feed : (p : List Text × Text) (c : ℕ) → c ≡ 10 → total ((c ∷ []) ∷ p.0, p.1) ≡ [] ∷ total p
unfolding total trim_end is_whitespace
total-feed (ls, rest) c e = rw e refl

total-drain : (c : ℕ) (s : Text) → total (drain (c ∷ s)) ≡ step c (total (drain s))
unfolding drain step
total-drain c s = elim (Bool-cases (c == 10)) [
  | inl e ↦ rw e (total-feed (drain s) c ((==_iff c 10).0 e))
  | inr e ↦ rw e (total-attach c (drain s))
]

map-extend : (c : ℕ) (ws : List Text) → map trim_end (extend c ws) ≡ onto c (map trim_end ws)
unfolding onto trimmed trim_end
map-extend c [] = refl
map-extend c (w ∷ ws) = refl

-- A carriage return in front of a line feed is trimmed with it.
map-lines_return :
    (c : ℕ) (s : Text)
    → c ≡ 13
    → starts_line_feed s ≡ true
    → map trim_end (lines s) ≡ onto c (map trim_end (lines s))
unfolding onto trimmed trim_end lines is_whitespace
map-lines_return c [] e f = cc
map-lines_return c (d ∷ s) e f = rw (e, (==_iff d 10).0 f) refl

map-lines : (c : ℕ) (s : Text) → map trim_end (lines (c ∷ s)) ≡ step c (map trim_end (lines s))
unfolding lines step trim_end
map-lines c s = elim (Bool-cases (c == 10)) [
  | inl e ↦ rw e refl
  | inr e ↦ rw e elim (Bool-cases (c == 13)) [
    | inl r ↦ rw r elim (Bool-cases (starts_line_feed s)) [
      | inl f ↦ rw f (map-lines_return c s ((==_iff c 13).0 r) f)
      | inr f ↦ rw f (map-extend c (lines s))
    ]
    | inr r ↦ rw r (map-extend c (lines s))
  ]
]

total-lines : (s : Text) → total (drain s) ≡ map trim_end (lines s)
unfolding lines drain total left
total-lines [] = refl
total-lines (c ∷ s) = total-drain c s ∙ ap (step c) (total-lines s) ∙ sym (map-lines c s)

-- Draining a text piece by piece.
drained : List Text → List Text × Text → List Text × Text
drained front (ls, rest) = (front ++ ls, rest)

drain-attach :
    (c : ℕ) (p : List Text × Text) (t : Text)
    → (c == 10) ≡ false
    → attach c (drained p.0 (drain (p.1 ++ t)))
      ≡ drained (attach c p).0 (drain ((attach c p).1 ++ t))
unfolding drained drain
drain-attach c ([], r) t e = rw e refl
drain-attach c (l ∷ ls, r) t e = refl

drain-append : (s t : Text) → drain (s ++ t) ≡ drained (drain s).0 (drain ((drain s).1 ++ t))
unfolding drained drain
drain-append [] t = refl
drain-append (c ∷ s) t = elim (Bool-cases (c == 10)) [
  | inl e ↦ rw (e, drain-append s t) refl
  | inr e ↦ rw (e, drain-append s t) (drain-attach c (drain s) t e)
]

-- The log after the whole text `s` came in.
abbrev At : ServeLog → Text → Type 0
At g s = (g.buf ≡ (drain s).1) × (g.written ≡ map trim_end (drain s).0)

feed-At : (g : ServeLog) (s : Text) (b : Bytes) → At g s → At (feed g b) (s ++ from_utf8_lossy b)
unfolding feed drained
feed-At g s b (hb, hw) =
    rw (drain-append s (from_utf8_lossy b), hb, hw)
      (refl, sym (map-append trim_end (drain s).0 (drain ((drain s).1 ++ from_utf8_lossy b)).0))

feeds-At :
    (bs : List Bytes) (g : ServeLog) (s : Text)
    → At g s
    → At (feeds bs g) (s ++ concat (map from_utf8_lossy bs))
unfolding feeds
feeds-At [] g s h = rw (append-nil s) h
feeds-At (b ∷ bs) g s h =
    rw (sym (append_assoc s (from_utf8_lossy b) (concat (map from_utf8_lossy bs))))
      (feeds-At bs (feed g b) (s ++ from_utf8_lossy b) (feed-At g s b h))

flush-At : (g : ServeLog) (s : Text) → At g s → (flush g).written ≡ total (drain s)
unfolding flush total left
flush-At g s (hb, hw) = elim (Bool-cases (is_empty (drain s).1)) [
  | inl e ↦ rw (hb, e, hw, append-nil (map trim_end (drain s).0))
  | inr e ↦ rw (hb, e, hw)
]

-- The lines that are written, up to the flush at the end, are those of `str::lines` of the whole
-- text without the blanks at their ends, where each chunk is decoded on its own.
pub flush-feed :
    (bs : List Bytes)
    → (flush (feeds bs empty_log)).written ≡ map trim_end (lines (concat (map from_utf8_lossy bs)))
unfolding drain trim_end
flush-feed bs =
    let whole = concat (map from_utf8_lossy bs) in
    flush-At (feeds bs empty_log) whole (feeds-At bs empty_log [] (refl, refl)) ∙ total-lines whole
