-- ===== src/Proto/Stream/Reference.antt =====
-- `read_frame_as` (crates/sp-proto/src/lib.rs) against the frame format itself.
use shell_proxy.Prelude.{
  ℕ, ◌≡◌, refl, inl, inr, true, false, [], ◌∷◌, ◌++◌, arith, Option, none, some, ltb, if◌then◌else◌,
  Bool-cases, length, take, drop, Result, ok, err, ◌>>=◌, length-append, take-append, drop-append,
}
use shell_proxy.Proto.Frame.{
  Bytes, Error, protocol, partial_header, partial_payload, frame_too_large, max_payload,
  from_le_bytes,
}
use shell_proxy.Proto.Stream.{
  Reader, Filled, full, closed, failed, stuck, fill, Read, frame, end, error, decoded, with_payload,
  with_kind, with_header, read_frame_as,
}
use shell_proxy.Proto.Stream.Fill.{IsClean, contents, IsFill, fill-IsFill}

-- A frame and the stream behind it, or the end, or an error, as on the bytes `bs`.
abbrev pub Agrees : {T : Type 0} → Read T → Result (Option (T × Bytes)) Error → Type 0
Agrees (frame t r) (ok (some (u, rest))) = (t ≡ u) × (contents r ≡ rest) × IsClean r
Agrees end (ok none) = Unit {0}
Agrees (error e) (err x) = e ≡ x
Agrees _ _ = ⊥

module _ {K T : Type 0} (kind_of : ℕ → Result K Error) (decode : K → Bytes → Result T Error) where
  -- The payload, of `len` bytes at the front of `body`.
  unfoldable pub payload_of : ℕ → Bytes → K → Result (Option (T × Bytes)) Error
  payload_of len body kind =
      if ltb max_payload len
      then err (protocol (frame_too_large len))
      else if ltb (length body) len
      then err (protocol (partial_payload (length body) len))
      else (decode kind (take len body) >>= λ t. ok (some (t, drop len body)))

  -- The first frame of `bs`, with the bytes behind it.
  unfoldable pub first_frame : Bytes → Result (Option (T × Bytes)) Error
  unfolding payload_of
  first_frame [] = ok none
  first_frame (k ∷ a ∷ b ∷ c ∷ d ∷ body) = kind_of k >>= payload_of (from_le_bytes a b c d) body
  first_frame bs = err (protocol (partial_header (length bs)))

  decoded-Agrees :
      (r : Reader) (x : Result T Error)
      → IsClean r
      → Agrees (decoded kind_of decode x r) (x >>= λ t. ok (some (t, contents r)))
  unfolding decoded
  decoded-Agrees r (ok t) c = (refl, refl, c)
  decoded-Agrees r (err e) c = refl

  with_payload-Agrees :
      (kind : K) (len : ℕ) (r : Reader) (d : Filled)
      → ltb max_payload len ≡ false
      → IsFill len [] r d
      → Agrees (with_payload kind_of decode kind len d) (payload_of len (contents r) kind)
  unfolding with_payload payload_of
  with_payload-Agrees kind len r (full p q) small (n, split, c) =
      rw
        (
          ← split,
          ← n,
          rw (← n) at small,
          not_short,
          take-append p (contents q),
          drop-append p (contents q),
        )
        (decoded-Agrees q (decode kind p) c)
    where
      not_short : ltb (length (p ++ contents q)) (length p) ≡ false
      not_short = ground (arith, length-append p (contents q))
  with_payload-Agrees kind len r (closed got) small (n, split) =
      rw (small, ← split, (let t : ltb (length got) len ≡ true = ground arith in t)) refl
  with_payload-Agrees kind len r (failed e) small h = elim h [ ]
  with_payload-Agrees kind len r stuck small h = elim h [ ]

  with_kind-Agrees :
      (kind : Result K Error) (len : ℕ) (r : Reader)
      → IsClean r
      → Agrees (with_kind kind_of decode kind len r) (kind >>= payload_of len (contents r))
  unfolding with_kind
  with_kind-Agrees (err e) len r c = refl
  with_kind-Agrees (ok kind) len r c = elim (Bool-cases (ltb max_payload len)) [
    | inl big ↦ unfold payload_of in rw big refl
    | inr small ↦ rw small (
        with_payload-Agrees kind len r (fill len len [] r) small
          (fill-IsFill len len [] r (omega arith) (omega arith) c))
  ]

  with_header-Agrees :
      (r : Reader) (d : Filled)
      → IsFill 5 [] r d
      → Agrees (with_header kind_of decode d) (first_frame (contents r))
  unfolding with_header first_frame
  with_header-Agrees r (full (k ∷ a ∷ b ∷ c ∷ d ∷ []) q) (n, split, clean) =
      rw (← split) (with_kind-Agrees (kind_of k) (from_le_bytes a b c d) q clean)
  with_header-Agrees r (full [] q) (n, split, clean) = absurd (omega arith)
  with_header-Agrees r (full (k ∷ []) q) (n, split, clean) = absurd (omega arith)
  with_header-Agrees r (full (k ∷ a ∷ []) q) (n, split, clean) = absurd (omega arith)
  with_header-Agrees r (full (k ∷ a ∷ b ∷ []) q) (n, split, clean) = absurd (omega arith)
  with_header-Agrees r (full (k ∷ a ∷ b ∷ c ∷ []) q) (n, split, clean) = absurd (omega arith)
  with_header-Agrees r (full (k ∷ a ∷ b ∷ c ∷ d ∷ x ∷ y) q) (n, split, clean) = absurd (omega arith)
  with_header-Agrees r (closed []) (n, split) = rw (← split) tt
  with_header-Agrees r (closed (k ∷ [])) (n, split) = rw (← split) refl
  with_header-Agrees r (closed (k ∷ a ∷ [])) (n, split) = rw (← split) refl
  with_header-Agrees r (closed (k ∷ a ∷ b ∷ [])) (n, split) = rw (← split) refl
  with_header-Agrees r (closed (k ∷ a ∷ b ∷ c ∷ [])) (n, split) = rw (← split) refl
  with_header-Agrees r (closed (k ∷ a ∷ b ∷ c ∷ d ∷ x)) (n, split) = absurd (omega arith)
  with_header-Agrees r (failed e) h = elim h [ ]
  with_header-Agrees r stuck h = elim h [ ]

  -- On a stream that delivers its bytes in any pieces, `read_frame_as` ends, and returns the first
  -- frame of the bytes with the stream behind it, `None` if there are no bytes, and the error of
  -- the format otherwise: a cut header, a bad kind, a length over the limit, a cut payload, or
  -- what the payload's decoder reports.
  pub read_frame_as-Agrees :
      (r : Reader) → IsClean r → Agrees (read_frame_as kind_of decode r) (first_frame (contents r))
  unfolding read_frame_as
  read_frame_as-Agrees r c =
      with_header-Agrees r (fill 5 5 [] r) (fill-IsFill 5 5 [] r (omega arith) (omega arith) c)
