-- ===== src/Ssh/Pattern/Lists.antt =====
-- `match_pattern_list` of src/ssh.rs: a list of patterns with negations.
use shell_proxy.Prelude.{
  ◌≡◌, ◌↔◌, ◌⊎◌, inl, inr, refl, Bool, true, false, Bool-cases, List, [], ◌∷◌, map, Text, All,
  to_ascii_lowercase,
}
use shell_proxy.Ssh.Pattern.{is_match, strip_bang, match_patterns, match_pattern_list}
use shell_proxy.Ssh.Pattern.Glob.{Glob}
use shell_proxy.Ssh.Pattern.Matcher.{match_pattern-Glob}

-- The pattern without its `!`, in lower case, stands for the host.
abbrev pub Hits : Text → Text → Type 0
Hits host p = Glob (map to_ascii_lowercase (strip_bang p).1) host

-- Some pattern without a `!` stands for the host.
abbrev pub HasHit : Text → List Text → Type 0
HasHit host [] = ⊥
HasHit host (p ∷ ps) = (((strip_bang p).0 ≡ false) × Hits host p) ⊎ HasHit host ps

-- No pattern behind a `!` stands for the host.
abbrev pub HasNoVeto : Text → List Text → Type 0
HasNoVeto host ps = All (λ p. (strip_bang p).0 ≡ true → ¬ Hits host p) ps

not_both : (b : Bool) → b ≡ true → ¬ (b ≡ false)
not_both b t f = cc

is_match_iff : (s p : Text) → (is_match s p ≡ true) ↔ Glob p s
is_match_iff s p =
    let (b, e, (f, g)) = match_pattern-Glob s p in (rw (is_match, e) f, rw (is_match, e) g)

match_patterns-to :
    (host : Text) (positive : Bool) (ps : List Text)
    → match_patterns host positive ps ≡ true
    → ((positive ≡ true) ⊎ HasHit host ps) × HasNoVeto host ps
unfolding match_patterns
match_patterns-to host positive [] h = (inl h, tt)
match_patterns-to host positive (p ∷ ps) h =
    elim (Bool-cases (is_match host (map to_ascii_lowercase (strip_bang p).1))) [
      | inl hit ↦ elim (Bool-cases (strip_bang p).0) [
        | inl negated ↦ absurd (cc (rw (hit, negated) at h))
        | inr plain ↦
            let (found, clear) = match_patterns-to host true ps (rw (hit, plain) at h) in
            (
              inr (inl (plain, (is_match_iff host _).0 hit)),
              (λ negated. absurd (not_both _ negated plain), clear),
            )
      ]
      | inr miss ↦
          let (found, clear) = match_patterns-to host positive ps (rw miss at h) in
          (
            elim found [ inl before ↦ inl before | inr later ↦ inr (inr later) ],
            (λ negated hits. absurd (not_both _ ((is_match_iff host _).1 hits) miss), clear),
          )
    ]

match_patterns-from :
    (host : Text) (positive : Bool) (ps : List Text)
    → (positive ≡ true) ⊎ HasHit host ps
    → HasNoVeto host ps
    → match_patterns host positive ps ≡ true
unfolding match_patterns
match_patterns-from host positive [] (inl h) clear = h
match_patterns-from host positive [] (inr h) clear = elim h [ ]
match_patterns-from host positive (p ∷ ps) found (calm, clear) =
    elim (Bool-cases (is_match host (map to_ascii_lowercase (strip_bang p).1))) [
      | inl hit ↦ elim (Bool-cases (strip_bang p).0) [
        | inl negated ↦ absurd (calm negated ((is_match_iff host _).0 hit))
        | inr plain ↦ rw (hit, plain) (match_patterns-from host true ps (inl refl) clear)
      ]
      | inr miss ↦
          let still : (positive ≡ true) ⊎ HasHit host ps = elim found [
            | inl before ↦ inl before
            | inr (inl (plain, hits)) ↦ absurd (not_both _ ((is_match_iff host _).1 hits) miss)
            | inr (inr later) ↦ inr later
          ] in
          rw miss (match_patterns-from host positive ps still clear)
    ]

-- A host matches a list exactly when some pattern of it without a `!` stands for the host and none
-- behind a `!` does, wherever it stands in the list; upper and lower case letters of ASCII are one.
pub match_pattern_list_iff :
    (host : Text) (patterns : List Text)
    → (match_pattern_list host patterns ≡ true)
      ↔ HasHit (map to_ascii_lowercase host) patterns
        × HasNoVeto (map to_ascii_lowercase host) patterns
unfolding match_pattern_list
match_pattern_list_iff host patterns = (
  λ h.
      let (found, clear) = match_patterns-to (map to_ascii_lowercase host) false patterns h in
      (elim found [ inl before ↦ absurd (cc before) | inr hit ↦ hit ], clear),
  λ (found, clear).
      match_patterns-from (map to_ascii_lowercase host) false patterns (inr found) clear,
)
