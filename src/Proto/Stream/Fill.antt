-- ===== src/Proto/Stream/Fill.antt =====
-- The read loop on a stream that delivers bytes: what arrives depends on the bytes alone.
use shell_proxy.Prelude.{
  ℕ, zero, suc, ◌+◌, ◌-◌, ◌≤◌, ◌<◌, ◌≡◌, refl, sym, ap, ◌∙◌, inl, inr, false, [], ◌∷◌, ◌++◌, arith,
  ltb, leb, leb→le, ltb→lt, Bool-cases, length, take, drop, Result, ok, err, length-append,
  append-nil, append_assoc, take-append-drop, length-take, length-drop,
}
use shell_proxy.Proto.Frame.{Bytes, Error}
use shell_proxy.Proto.Stream.{
  chunk, failure, Reader, read, Filled, full, closed, failed, stuck, arrived, fill,
}

-- A stream without failures, whose reads bring a byte at least before the end.
abbrev pub IsClean : Reader → Type 0
IsClean [] = Unit {0}
IsClean (chunk c ∷ r) = (1 ≤ length c) × IsClean r
IsClean (failure e ∷ r) = ⊥

abbrev pub contents : Reader → Bytes
contents [] = []
contents (chunk c ∷ r) = c ++ contents r
contents (failure e ∷ r) = contents r

-- The buffer with all that arrived, split where the loop stopped.
abbrev pub IsFill : ℕ → Bytes → Reader → Filled → Type 0
IsFill want buf r (full got rest) =
    (length got ≡ want) × (got ++ contents rest ≡ buf ++ contents r) × IsClean rest
IsFill want buf r (closed got) = (length got < want) × (got ≡ buf ++ contents r)
IsFill want buf r (failed e) = ⊥
IsFill want buf r stuck = ⊥

not-ltb : (a b : ℕ) → b ≤ a → ltb a b ≡ false
not-ltb a b h = ground arith

past : (n room : ℕ) → leb (suc n) (suc room) ≡ false → 1 ≤ n - room
past n room h = ground arith

-- The outcome may be read against an earlier state of the loop.
IsFill-from :
    (want : ℕ) (buf : Bytes) (r rest : Reader) (got : Bytes) (d : Filled)
    → got ++ contents rest ≡ buf ++ contents r
    → IsFill want got rest d
    → IsFill want buf r d
IsFill-from want buf r rest got (full g q) e (n, split, c) = (n, split ∙ e, c)
IsFill-from want buf r rest got (closed g) e (n, split) = (n, split ∙ e)
IsFill-from want buf r rest got (failed x) e h = h
IsFill-from want buf r rest got stuck e h = h

-- What one read brought, on a clean stream with room for a byte.
abbrev IsRead : ℕ → Reader → Result (Bytes × Reader) Error → Type 0
IsRead room r (ok ([], rest)) = contents r ≡ []
IsRead room r (ok (b ∷ bs, rest)) =
    (length (b ∷ bs) ≤ room) × ((b ∷ bs) ++ contents rest ≡ contents r) × IsClean rest
IsRead room r (err e) = ⊥

read-IsRead : (room : ℕ) (r : Reader) → 1 ≤ room → IsClean r → IsRead room r (read room r)
unfolding read
read-IsRead room [] h c = refl
read-IsRead room (failure e ∷ r) h c = elim c [ ]
read-IsRead room (chunk [] ∷ r) h c = absurd (omega arith)
read-IsRead zero (chunk (b ∷ bs) ∷ r) h c = absurd (omega arith)
read-IsRead (suc room) (chunk (b ∷ bs) ∷ r) h (_, c) =
    elim (Bool-cases (leb (length (b ∷ bs)) (suc room))) [
      | inl fits ↦ rw fits (leb→le _ _ fits, refl, c)
      | inr over ↦ rw over (
        omega (arith, length-take room bs),
        ap (λ (t : Bytes). b ∷ t)
            (sym (append_assoc (take room bs) (drop room bs) (contents r))
              ∙ ap (λ (t : Bytes). t ++ contents r) (take-append-drop room bs)),
        (over_rest over, c),
      )
    ]
  where
    over_rest : leb (length (b ∷ bs)) (suc room) ≡ false → 1 ≤ length (drop room bs)
    over_rest e = rw (length-drop room bs) (past (length bs) room e)

arrived-IsFill :
    (want : ℕ) (buf : Bytes) (r : Reader) (d : Result (Bytes × Reader) Error)
    → (next : Bytes → Reader → Filled) → length buf < want
    → IsRead (want - length buf) r d
    → ((got : Bytes) (rest : Reader)
        → length buf < length got
        → length got ≤ want
        → IsClean rest
        → IsFill want got rest (next got rest))
    → IsFill want buf r (arrived d buf next)
unfolding arrived
arrived-IsFill want buf r (err e) next short d ih = d
arrived-IsFill want buf r (ok ([], rest)) next short d ih = (short, rw (d, append-nil))
arrived-IsFill want buf r (ok (b ∷ bs, rest)) next short (fits, split, clean) ih =
    IsFill-from want buf r rest (buf ++ b ∷ bs) (next (buf ++ b ∷ bs) rest)
      (append_assoc buf (b ∷ bs) (contents rest) ∙ ap (λ (t : Bytes). buf ++ t) split)
      (ih (buf ++ b ∷ bs) rest (omega (arith, length-append buf (b ∷ bs)))
        (omega (arith, length-append buf (b ∷ bs))) clean)

-- With `want - length buf` rounds of fuel the loop ends, full or at the end of the stream.
pub fill-IsFill :
    (fuel want : ℕ) (buf : Bytes) (r : Reader)
    → length buf ≤ want
    → want ≤ length buf + fuel
    → IsClean r
    → IsFill want buf r (fill fuel want buf r)
unfolding fill
fill-IsFill zero want buf r below enough c =
    rw (not-ltb (length buf) want (omega arith)) (omega arith, refl, c)
fill-IsFill (suc fuel) want buf r below enough c = elim (Bool-cases (ltb (length buf) want)) [
  | inl short ↦ rw short (
      arrived-IsFill want buf r (read (want - length buf) r) (fill fuel want) (ltb→lt _ _ short)
        (read-IsRead (want - length buf) r (ground arith) c)
        λ got rest grown fits clean. fill-IsFill fuel want got rest fits (omega arith) clean)
  | inr filled ↦ rw filled (ground arith, refl, c)
]
