-- ===== src/SshConfig/RoundTrip.antt =====
-- Quoted values come back from the parser of src/ssh_config.rs.
use shell_proxy.Prelude.{
  ℕ, ◌≡◌, refl, sym, ap, ◌∙◌, List, [], ◌∷◌, ◌++◌, map, append_assoc, append-nil, All, Bool, true,
  false, ◌&&◌, none, some, Text, is_empty, is_whitespace, trim, trim_start, trim_end, ◌==◌, ==_iff,
  if◌then◌else◌,
}
use shell_proxy.SshConfig.Values.{
  ends_in, front, unquoted, unquote, take_cur, split_char, split_from, split_values,
}

-- A value in double quotes.
abbrev pub quoted : Text → Text
quoted v = b'"' ∷ v ++ b'"' ∷ []

abbrev pub join_values : List Text → Text
join_values [] = []
join_values (v ∷ []) = quoted v
join_values (v ∷ w ∷ vs) = quoted v ++ 32 ∷ join_values (w ∷ vs)

abbrev pub HasNoQuote : Text → Type 0
HasNoQuote = All (λ c. (c == b'"') ≡ false)

split_inside :
    (v rest : Text) (out : List Text) (cur : Text)
    → HasNoQuote v
    → split_from (v ++ rest) (record { out = out; cur = cur; quote = some b'"' })
      ≡ split_from rest (record { out = out; cur = cur ++ v; quote = some b'"' })
unfolding split_from split_char
split_inside [] rest out cur h = rw (append-nil cur) refl
split_inside (c ∷ v) rest out cur (h, hs) =
    rw (h, split_from)
      (split_inside v rest out (cur ++ c ∷ []) hs
        ∙ ap (λ x. split_from rest (record { out = out; cur = x; quote = some b'"' }))
            (append_assoc cur (c ∷ []) v))

is_empty-last : (s : Text) (c : ℕ) → is_empty (s ++ c ∷ []) ≡ false
is_empty-last [] c = refl
is_empty-last (d ∷ s) c = refl

kept : (b : Bool) (s : Text) → (if b && false then [] else s) ≡ s
kept true s = refl
kept false s = refl

trim_end-last : (s : Text) (c : ℕ) → is_whitespace c ≡ false → trim_end (s ++ c ∷ []) ≡ s ++ c ∷ []
unfolding trim_end
trim_end-last [] c h = rw h refl
trim_end-last (d ∷ s) c h =
    rw (trim_end-last s c h, is_empty-last s c) (kept (is_whitespace d) (d ∷ s ++ c ∷ []))

pub ends_in-last : (s : Text) (c : ℕ) → ends_in c (s ++ c ∷ []) ≡ true
ends_in-last [] c = (==_iff c c).1 refl
ends_in-last (d ∷ []) c = (==_iff c c).1 refl
ends_in-last (d ∷ e ∷ s) c = ends_in-last (e ∷ s) c

front-last : (s : Text) (c : ℕ) → front (s ++ c ∷ []) ≡ s
front-last [] c = refl
front-last (d ∷ []) c = refl
front-last (d ∷ e ∷ s) c = ap (λ x. d ∷ x) (front-last (e ∷ s) c)

unquote-quoted : (v : Text) → unquote (quoted v) ≡ v
unfolding unquote trim trim_start is_whitespace
unquote-quoted v = ap unquoted (trim_end-last (b'"' ∷ v) b'"' refl) ∙ unquoted-quoted v
  where
    unquoted-quoted : (v : Text) → unquoted (quoted v) ≡ v
    unquoted-quoted [] = refl
    unquoted-quoted (c ∷ v) = rw (ends_in-last (c ∷ v) b'"') (front-last (c ∷ v) b'"')

-- A quoted value is one piece.
split-quoted :
    (v rest : Text) (out : List Text)
    → HasNoQuote v
    → split_from (quoted v ++ rest) (record { out = out; cur = []; quote = none })
      ≡ split_from rest (record { out = out; cur = quoted v; quote = none })
unfolding split_from split_char
split-quoted v rest out h =
    rw (append_assoc v (b'"' ∷ []) rest) (split_inside v (b'"' ∷ rest) out (b'"' ∷ []) h)

split-join :
    (vs : List Text) (out : List Text)
    → All HasNoQuote vs
    → take_cur (split_from (join_values vs) (record { out = out; cur = []; quote = none }))
      ≡ out ++ map quoted vs
unfolding split_from split_char is_whitespace
split-join [] out h = sym (append-nil out)
split-join (v ∷ []) out (h, hs) = ap take_cur (
    ap (λ x. split_from x (record { out = out; cur = []; quote = none }))
      (sym (append-nil (quoted v)))
    ∙ split-quoted v [] out h)
split-join (v ∷ w ∷ vs) out (h, hs) =
    ap take_cur (split-quoted v (32 ∷ join_values (w ∷ vs)) out h)
    ∙ split-join (w ∷ vs) (out ++ quoted v ∷ []) hs
    ∙ append_assoc out (quoted v ∷ []) (map quoted (w ∷ vs))

map-unquote : (vs : List Text) → map unquote (map quoted vs) ≡ vs
map-unquote [] = refl
map-unquote (v ∷ vs) = rw (unquote-quoted v, map-unquote vs)

-- Values in double quotes with blanks between them come back as they are, if no value holds a
-- double quote.
pub split_values-join_values :
    (vs : List Text) → All HasNoQuote vs → split_values (join_values vs) ≡ vs
unfolding split_values
split_values-join_values vs h = ap (map unquote) (split-join vs [] h) ∙ map-unquote vs
