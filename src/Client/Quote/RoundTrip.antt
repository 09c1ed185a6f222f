-- ===== src/Client/Quote/RoundTrip.antt =====
-- What a POSIX shell reads out of the command lines of src/client.rs and src/main.rs.
use shell_proxy.Prelude.{
  ℕ, ◌≡◌, refl, sym, ap, ◌∙◌, inl, inr, true, false, ◌||◌, List, [], ◌∷◌, ◌++◌, map, Option, none,
  some, arith, ◌==◌, ==_iff, Bool-cases, all, Text, append-nil, append_assoc,
}
use shell_proxy.Client.Quote.{
  bare_char, is_bare_word, replace_quotes, shell_quote, join_words, join_command, from_words,
  build_command,
}
use shell_proxy.Client.Quote.Words.{outside, bare, single, is_plain, move, words_from, words}

bare_char-plain : (c : ℕ) → bare_char c ≡ true → is_plain c ≡ true
unfolding bare_char is_plain
bare_char-plain c h = ground arith

plain-not-blank : (c : ℕ) → is_plain c ≡ true → ((c == 32) || (c == 9)) ≡ false
unfolding is_plain
plain-not-blank c h = ground arith

all-plain : (s : Text) → all bare_char s ≡ true → all is_plain s ≡ true
all-plain [] h = refl
all-plain (c ∷ s) h = ground (arith, bare_char-plain c, all-plain s)

module _ (home : Text) where
  pub plain-starts :
      (c : ℕ) (s : Text)
      → is_plain c ≡ true
      → words_from home outside (c ∷ s) ≡ words_from home bare (c ∷ s)
  unfolding words_from move
  plain-starts c s h = rw (plain-not-blank c h)

  quote-starts : (s : Text) → words_from home outside (39 ∷ s) ≡ words_from home bare (39 ∷ s)
  unfolding words_from move is_plain
  quote-starts s = refl

  pub bare-plain :
      (c : ℕ) (s w : Text) (ws : List Text)
      → is_plain c ≡ true
      → words_from home bare s ≡ some (w ∷ ws)
      → words_from home bare (c ∷ s) ≡ some ((c ∷ w) ∷ ws)
  unfolding words_from move
  bare-plain c s w ws h e = rw (h, e)

  -- Plain characters stand for themselves.
  pub bare-append :
      (s t w : Text) (ws : List Text)
      → all is_plain s ≡ true
      → words_from home bare t ≡ some (w ∷ ws)
      → words_from home bare (s ++ t) ≡ some ((s ++ w) ∷ ws)
  bare-append [] t w ws h e = e
  bare-append (c ∷ s) t w ws h e =
      bare-plain c (s ++ t) (s ++ w) ws (ground arith) (bare-append s t w ws (ground arith) e)

  single-other :
      (c : ℕ) (s w : Text) (ws : List Text)
      → (c == 39) ≡ false
      → words_from home single s ≡ some (w ∷ ws)
      → words_from home single (c ∷ s) ≡ some ((c ∷ w) ∷ ws)
  unfolding words_from move
  single-other c s w ws h e = rw (h, e)

  single-quote :
      (c : ℕ) (s w : Text) (ws : List Text)
      → (c == 39) ≡ true
      → words_from home single s ≡ some (w ∷ ws)
      → words_from home single (39 ∷ 92 ∷ 39 ∷ 39 ∷ s) ≡ some ((c ∷ w) ∷ ws)
  unfolding words_from move is_plain
  single-quote c s w ws h e = rw (e, (==_iff c 39).0 h)

  -- Between single quotes every character stands for itself, and a quote is escaped outside.
  single-replace_quotes :
      (s t w : Text) (ws : List Text)
      → words_from home bare t ≡ some (w ∷ ws)
      → words_from home single (replace_quotes s ++ 39 ∷ t) ≡ some ((s ++ w) ∷ ws)
  unfolding replace_quotes words_from move
  single-replace_quotes [] t w ws e = rw e
  single-replace_quotes (c ∷ s) t w ws e =
      let rest = single-replace_quotes s t w ws e in
      elim (Bool-cases (c == 39)) [
        | inl quote ↦ rw quote (single-quote c (replace_quotes s ++ 39 ∷ t) (s ++ w) ws quote rest)
        | inr other ↦ rw other (single-other c (replace_quotes s ++ 39 ∷ t) (s ++ w) ws other rest)
      ]

  bare-enters :
      (s w : Text) (ws : List Text)
      → words_from home single s ≡ some (w ∷ ws)
      → words_from home bare (39 ∷ s) ≡ some (w ∷ ws)
  unfolding words_from move is_plain
  bare-enters s w ws e = rw e

  -- A quoted word adds its characters to the word in front of it.
  pub bare-shell_quote :
      (s t w : Text) (ws : List Text)
      → words_from home bare t ≡ some (w ∷ ws)
      → words_from home bare (shell_quote s ++ t) ≡ some ((s ++ w) ∷ ws)
  unfolding shell_quote is_bare_word
  bare-shell_quote [] t w ws e = bare-enters (39 ∷ t) w ws (single-replace_quotes [] t w ws e)
  bare-shell_quote (c ∷ s) t w ws e = elim (Bool-cases (is_bare_word (c ∷ s))) [
    | inl plain ↦ rw plain (bare-append (c ∷ s) t w ws (all-plain (c ∷ s) plain) e)
    | inr other ↦
        rw (other, append_assoc (replace_quotes (c ∷ s)) (39 ∷ []) t)
          (bare-enters (replace_quotes (c ∷ s) ++ 39 ∷ t) ((c ∷ s) ++ w) ws
            (single-replace_quotes (c ∷ s) t w ws e))
  ]

  outside-shell_quote :
      (s t : Text)
      → words_from home outside (shell_quote s ++ t) ≡ words_from home bare (shell_quote s ++ t)
  unfolding shell_quote is_bare_word
  outside-shell_quote [] t = quote-starts (39 ∷ t)
  outside-shell_quote (c ∷ s) t = elim (Bool-cases (is_bare_word (c ∷ s))) [
    | inl plain ↦ rw plain (plain-starts c (s ++ t) (bare_char-plain c (ground arith)))
    | inr other ↦ rw other (quote-starts _)
  ]

  pub bare_end : words_from home bare [] ≡ some ([] ∷ [])
  unfolding words_from
  bare_end = refl

  bare-blank :
      (s : Text) (ws : List Text)
      → words_from home outside s ≡ some ws
      → words_from home bare (32 ∷ s) ≡ some ([] ∷ ws)
  unfolding words_from move is_plain
  bare-blank s ws e = rw e

  outside-blank : (s : Text) → words_from home outside (32 ∷ s) ≡ words_from home outside s
  unfolding words_from move
  outside-blank s = refl

  pub first-word :
      (s t : Text) (ws : List Text)
      → words_from home bare t ≡ some ([] ∷ ws)
      → words_from home outside (shell_quote s ++ t) ≡ some (s ∷ ws)
  first-word s t ws e =
      outside-shell_quote s t
      ∙ bare-shell_quote s t [] ws e
      ∙ ap (λ (w : Text). some (w ∷ ws)) (append-nil s)

  quoted-words :
      (a : Text) (many : List Text)
      → words_from home outside (join_words (map shell_quote (a ∷ many))) ≡ some (a ∷ many)
  unfolding join_words
  quoted-words a [] =
      ap (words_from home outside) (sym (append-nil (shell_quote a))) ∙ first-word a [] [] bare_end
  quoted-words a (b ∷ many) =
      first-word a (32 ∷ join_words (map shell_quote (b ∷ many))) (b ∷ many)
        (bare-blank _ (b ∷ many) (quoted-words b many))

-- A shell reads the quoted form of any text, the empty one included, as one word that is the text.
pub words-shell_quote : (home s : Text) → words home (shell_quote s) ≡ some (s ∷ [])
unfolding words
words-shell_quote home s =
    ap (words_from home outside) (sym (append-nil (shell_quote s)))
    ∙ first-word home s [] [] (bare_end home)

-- The command line that `sp` builds from two or more arguments has no positional parameters, and
-- a shell reads it back into exactly these arguments as its words.
pub build_command-words :
    (home a b : Text) (many : List Text) (script : Option Text)
    → (line : Text) × (build_command none (a ∷ b ∷ many) script ≡ some (line, []))
      × (words home line ≡ some (a ∷ b ∷ many))
unfolding build_command from_words join_command words
build_command-words home a b many script =
    (join_words (map shell_quote (a ∷ b ∷ many)), refl, quoted-words home a (b ∷ many))
