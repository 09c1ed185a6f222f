-- ===== src/Ssh/KnownHosts/Scan.antt =====
-- What the scan of a known_hosts file in src/ssh.rs concludes.
use shell_proxy.Prelude.{
  ℕ, ◌+◌, ◌≡◌, ◌⊎◌, inl, inr, refl, ap, subst, ◌∙◌, Bool, true, false, not, ◌&&◌, List, [], ◌∷◌,
  ◌++◌, Option, none, some, Bool-cases, All, Text, lines, trim,
}
use shell_proxy.Ssh.KnownHosts.{
  Marker, revoked, cert_authority, Entry, Detail, at_line, KnownHostCheck, matched, absent,
  revoked_at, malformed, lines, trim, raw_entry_targets_host, is_skipped, is_matched, is_absent,
  host_match, Line, verdict, return, matched_entry, plain_entry, marked_entry, parsed_line,
  scan_line, scan_lines, scan_known_hosts, accept, decide_files, decide_host_key,
}

-- A verdict on which a plain key is rejected, with strict checking or without.
pub data IsRefusal : KnownHostCheck → Type 0 where
  is_revoked : (n : ℕ) → IsRefusal (revoked_at n)
  is_malformed : (d : Detail) → IsRefusal (malformed d)

refusal-not-matched : {u : KnownHostCheck} → IsRefusal u → ¬ (u ≡ matched)
refusal-not-matched (is_revoked n) e = cc
refusal-not-matched (is_malformed d) e = cc

-- The verdict of a line; `d` has no part in it.
abbrev result : KnownHostCheck → Line → KnownHostCheck
result d (verdict v) = v
result d (return v) = v

Line-cases :
    (l : Line) → ((u : KnownHostCheck) × (l ≡ verdict u)) ⊎ ((u : KnownHostCheck) × (l ≡ return u))
Line-cases (verdict u) = inl (u, refl)
Line-cases (return u) = inr (u, refl)

module _ {Key : Type 0} (parse : Text → Option (Entry Key))
    (same_key same_algorithm : Key → Key → Bool) where
  -- A line that revokes the key.
  abbrev pub IsRevoking : Key → Text → Type 0
  IsRevoking key raw =
      (e : Entry Key) × (is_skipped (trim raw) ≡ false)
      × (parse (trim raw) ≡ some e)
      × (e.marker ≡ some revoked)
      × (same_key e.public_key key ≡ true)

  -- A line that records the key for the host.
  abbrev pub IsRecording : Text → Key → Text → Type 0
  IsRecording lookup key raw =
      (e : Entry Key) × (is_skipped (trim raw) ≡ false)
      × (parse (trim raw) ≡ some e)
      × (e.marker ≡ none)
      × (host_match lookup e.host_patterns ≡ true)
      × (same_key e.public_key key ≡ true)

  scan_line-revokes :
      (lookup : Text) (key : Key) (cert : Bool) (n : ℕ) (raw : Text) (v : KnownHostCheck)
      → IsRevoking key raw
      → scan_line parse same_key same_algorithm lookup key cert n (trim raw) v
        ≡ return (revoked_at n)
  unfolding scan_line parsed_line marked_entry
  scan_line-revokes lookup key cert n raw v (e, kept, parsed, marker, same) =
      rw (kept, parsed, marker, same)

  marked_entry-refuses :
      (lookup : Text) (key : Key) (cert : Bool) (n : ℕ) (e : Entry Key) (m : Option Marker)
      (v u : KnownHostCheck)
      → marked_entry parse same_key same_algorithm lookup key cert n e m v ≡ return u
      → IsRefusal u
  unfolding marked_entry
  marked_entry-refuses lookup key cert n e (some revoked) v u h =
      elim (Bool-cases (same_key e.public_key key)) [
        | inl same ↦ subst IsRefusal (ap (result v) (rw same at h)) (is_revoked n)
        | inr other ↦ absurd (cc (rw other at h))
      ]
  marked_entry-refuses lookup key cert n e (some cert_authority) v u h = cc
  marked_entry-refuses lookup key cert n e none v u h = cc

  parsed_line-refuses :
      (lookup : Text) (key : Key) (cert : Bool) (n : ℕ) (line : Text) (o : Option (Entry Key))
      (v u : KnownHostCheck)
      → parsed_line parse same_key same_algorithm lookup key cert n line o v ≡ return u
      → IsRefusal u
  unfolding parsed_line
  parsed_line-refuses lookup key cert n line none v u h =
      elim (Bool-cases (not (is_matched v) && raw_entry_targets_host line lookup)) [
        | inl ours ↦ subst IsRefusal (ap (result v) (rw ours at h)) (is_malformed (at_line n))
        | inr other ↦ absurd (cc (rw other at h))
      ]
  parsed_line-refuses lookup key cert n line (some e) v u h =
      marked_entry-refuses lookup key cert n e e.marker v u h

  -- The scan stops early with a refusal alone.
  scan_line-refuses :
      (lookup : Text) (key : Key) (cert : Bool) (n : ℕ) (line : Text) (v u : KnownHostCheck)
      → scan_line parse same_key same_algorithm lookup key cert n line v ≡ return u
      → IsRefusal u
  unfolding scan_line
  scan_line-refuses lookup key cert n line v u h = elim (Bool-cases (is_skipped line)) [
    | inl skipped ↦ absurd (cc (rw skipped at h))
    | inr kept ↦ parsed_line-refuses lookup key cert n line (parse line) v u (rw kept at h)
  ]

  scan_lines-revoked :
      (lookup : Text) (key : Key) (cert : Bool) (n : ℕ) (front back : List Text) (raw : Text)
      (v : KnownHostCheck)
      → IsRevoking key raw
      → IsRefusal
          (scan_lines parse same_key same_algorithm lookup key cert n (front ++ raw ∷ back) v)
  unfolding scan_lines
  scan_lines-revoked lookup key cert n [] back raw v h =
      rw (scan_line-revokes lookup key cert n raw v h) (is_revoked n)
  scan_lines-revoked lookup key cert n (x ∷ front) back raw v h =
      elim (Line-cases (scan_line parse same_key same_algorithm lookup key cert n (trim x) v)) [
        | inl (u, e) ↦ rw e (scan_lines-revoked lookup key cert (n + 1) front back raw u h)
        | inr (u, e) ↦ rw e (scan_line-refuses lookup key cert n (trim x) v u e)
      ]

  plain_entry-matched :
      (lookup : Text) (key : Key) (cert : Bool) (n : ℕ) (e : Entry Key) (v : KnownHostCheck)
      → plain_entry parse same_key same_algorithm lookup key cert n e v ≡ matched
      → (v ≡ matched)
        ⊎ ((cert ≡ false)
            × (host_match lookup e.host_patterns ≡ true)
            × (same_key e.public_key key ≡ true))
  unfolding plain_entry matched_entry
  plain_entry-matched lookup key true n e v h = inl h
  plain_entry-matched lookup key false n e v h =
      elim (Bool-cases (host_match lookup e.host_patterns)) [
        | inl host ↦ elim (Bool-cases (same_key e.public_key key)) [
          | inl same ↦ inr (refl, host, same)
          | inr other ↦ elim (Bool-cases (same_algorithm e.public_key key && is_absent v)) [
            | inl alike ↦ absurd (cc (rw (host, other, alike) at h))
            | inr unlike ↦ inl (rw (host, other, unlike) at h)
          ]
        ]
        | inr away ↦ inl (rw away at h)
      ]

  marked_entry-matched :
      (lookup : Text) (key : Key) (cert : Bool) (n : ℕ) (e : Entry Key) (m : Option Marker)
      (v : KnownHostCheck)
      → marked_entry parse same_key same_algorithm lookup key cert n e m v ≡ verdict matched
      → (v ≡ matched)
        ⊎ ((cert ≡ false)
            × (m ≡ none)
            × (host_match lookup e.host_patterns ≡ true)
            × (same_key e.public_key key ≡ true))
  unfolding marked_entry
  marked_entry-matched lookup key cert n e (some revoked) v h =
      elim (Bool-cases (same_key e.public_key key)) [
        | inl same ↦ absurd (cc (rw same at h))
        | inr other ↦ inl (ap (result v) (rw other at h))
      ]
  marked_entry-matched lookup key cert n e (some cert_authority) v h = inl (ap (result v) h)
  marked_entry-matched lookup key cert n e none v h =
      elim (plain_entry-matched lookup key cert n e v (ap (result v) h)) [
        | inl before ↦ inl before
        | inr (plain, host, same) ↦ inr (plain, refl, host, same)
      ]

  parsed_line-matched :
      (lookup : Text) (key : Key) (cert : Bool) (n : ℕ) (line : Text) (o : Option (Entry Key))
      (v : KnownHostCheck)
      → parsed_line parse same_key same_algorithm lookup key cert n line o v ≡ verdict matched
      → (v ≡ matched)
        ⊎ ((cert ≡ false)
            × (e : Entry Key) × (o ≡ some e)
            × (e.marker ≡ none)
            × (host_match lookup e.host_patterns ≡ true)
            × (same_key e.public_key key ≡ true))
  unfolding parsed_line
  parsed_line-matched lookup key cert n line none v h =
      elim (Bool-cases (not (is_matched v) && raw_entry_targets_host line lookup)) [
        | inl ours ↦ absurd (cc (rw ours at h))
        | inr other ↦ inl (ap (result v) (rw other at h))
      ]
  parsed_line-matched lookup key cert n line (some e) v h =
      elim (marked_entry-matched lookup key cert n e e.marker v h) [
        | inl before ↦ inl before
        | inr (plain, marker, host, same) ↦ inr (plain, e, refl, marker, host, same)
      ]

  -- One line makes a match only by recording the key.
  scan_line-matched :
      (lookup : Text) (key : Key) (cert : Bool) (n : ℕ) (raw : Text) (v : KnownHostCheck)
      → scan_line parse same_key same_algorithm lookup key cert n (trim raw) v ≡ verdict matched
      → (v ≡ matched) ⊎ ((cert ≡ false) × IsRecording lookup key raw)
  unfolding scan_line
  scan_line-matched lookup key cert n raw v h = elim (Bool-cases (is_skipped (trim raw))) [
    | inl skipped ↦ inl (ap (result v) (rw skipped at h))
    | inr kept ↦
        elim (parsed_line-matched lookup key cert n (trim raw) (parse (trim raw)) v
          (rw kept at h)) [
            | inl before ↦ inl before
            | inr (plain, e, parsed, marker, host, same) ↦
                inr (plain, (e, kept, parsed, marker, host, same))
          ]
  ]

  abbrev pub Recorded : Text → Key → Bool → List Text → Type 0
  Recorded lookup key cert ls =
      (cert ≡ false)
      × (front : List Text) × (raw : Text) × (back : List Text) × (ls ≡ front ++ raw ∷ back)
      × IsRecording lookup key raw

  scan_lines-matched :
      (lookup : Text) (key : Key) (cert : Bool) (n : ℕ) (ls : List Text) (v : KnownHostCheck)
      → scan_lines parse same_key same_algorithm lookup key cert n ls v ≡ matched
      → (v ≡ matched) ⊎ Recorded lookup key cert ls
  unfolding scan_lines
  scan_lines-matched lookup key cert n [] v h = inl h
  scan_lines-matched lookup key cert n (x ∷ ls) v h =
      elim (Line-cases (scan_line parse same_key same_algorithm lookup key cert n (trim x) v)) [
        | inl (u, e) ↦ elim (scan_lines-matched lookup key cert (n + 1) ls u (rw e at h)) [
          | inl now ↦ elim (scan_line-matched lookup key cert n x v (e ∙ ap verdict now)) [
            | inl before ↦ inl before
            | inr (plain, here) ↦ inr (plain, [], x, ls, refl, here)
          ]
          | inr (plain, front, raw, back, split, there) ↦
              inr (plain, x ∷ front, raw, back, ap (λ (l : List Text). x ∷ l) split, there)
        ]
        | inr (u, e) ↦
            absurd
              (refusal-not-matched (scan_line-refuses lookup key cert n (trim x) v u e) (rw e at h))
      ]

-- When a line revokes the key that the server presents, the scan ends with the revocation, or with a
-- malformed line.
pub scan_known_hosts-IsRefusal :
    {Key : Type 0} (parse : Text → Option (Entry Key)) (same_key same_algorithm : Key → Key → Bool)
    (text lookup : Text) (key : Key) (cert : Bool) (front back : List Text) (raw : Text)
    → lines text ≡ front ++ raw ∷ back
    → IsRevoking parse same_key same_algorithm key raw
    → IsRefusal (scan_known_hosts parse same_key same_algorithm text lookup key cert)
unfolding scan_known_hosts
scan_known_hosts-IsRefusal parse same_key same_algorithm text lookup key cert front back raw split
      h =
    rw split
      (scan_lines-revoked parse same_key same_algorithm lookup key cert 1 front back raw absent h)

-- A file matches a key only if the key was presented plainly, a line without a marker records this
-- very key for a pattern list that matches the host, and no line of the file revokes the key.
pub scan_known_hosts-matched :
    {Key : Type 0} (parse : Text → Option (Entry Key)) (same_key same_algorithm : Key → Key → Bool)
    (text lookup : Text) (key : Key) (cert : Bool)
    → scan_known_hosts parse same_key same_algorithm text lookup key cert ≡ matched
    → Recorded parse same_key same_algorithm lookup key cert (lines text)
      × ((front back : List Text) (raw : Text)
          → lines text ≡ front ++ raw ∷ back
          → ¬ IsRevoking parse same_key same_algorithm key raw)
unfolding scan_known_hosts
scan_known_hosts-matched parse same_key same_algorithm text lookup key cert h = (
  elim (scan_lines-matched parse same_key same_algorithm lookup key cert 1 (lines text) absent h) [
    | inl before ↦ absurd (cc before)
    | inr recorded ↦ recorded
  ],
  λ front back raw split revokes.
      refusal-not-matched
        (scan_known_hosts-IsRefusal parse same_key same_algorithm text lookup key cert front back
          raw split revokes)
        h,
)

refusal-decide_files :
    (strict some_checked : Bool) (front back : List KnownHostCheck) (c : KnownHostCheck)
    → All (λ d. d ≡ absent) front
    → IsRefusal c
    → ¬ (decide_files strict some_checked (front ++ c ∷ back) ≡ accept)
unfolding decide_files
refusal-decide_files strict b [] back _ quiet (is_revoked n) e = cc
refusal-decide_files strict b [] back _ quiet (is_malformed d) e = cc
refusal-decide_files strict b (d ∷ front) back c (same, quiet) h e =
    refusal-decide_files strict true front back c quiet h (rw same at e)

-- When a line of a known_hosts file revokes the plain key that the server presents, whatever else
-- the file holds and in whatever order, and no file checked before has an entry for the host, the
-- key is rejected, with strict checking or without, whatever the files behind it hold.
pub revoked-decide_host_key :
    {Key : Type 0} (parse : Text → Option (Entry Key)) (same_key same_algorithm : Key → Key → Bool)
    (text lookup : Text) (key : Key) (above below : List Text) (raw : Text) (strict : Bool)
    (front back : List KnownHostCheck)
    → lines text ≡ above ++ raw ∷ below
    → IsRevoking parse same_key same_algorithm key raw
    → All (λ d. d ≡ absent) front
    → ¬ (
        decide_host_key strict
          (front ++ scan_known_hosts parse same_key same_algorithm text lookup key false ∷ back)
        ≡ accept)
unfolding decide_host_key
revoked-decide_host_key parse same_key same_algorithm text lookup key above below raw strict front
      back split h quiet =
    refusal-decide_files strict false front back _ quiet (
      scan_known_hosts-IsRefusal parse same_key same_algorithm text lookup key false above below raw
        split h)
