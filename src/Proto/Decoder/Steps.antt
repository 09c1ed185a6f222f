-- ===== src/Proto/Decoder/Steps.antt =====
-- One round of `EventDecoder::push` (crates/sp-proto/src/lib.rs) and more bytes behind the buffer.
use shell_proxy.Prelude.{
  ℕ, zero, suc, ◌≤◌, ◌<◌, ◌≡◌, refl, false, inl, inr, List, [], ◌∷◌, ◌++◌, arith, ltb, Bool-cases,
  length, take, drop, Result, ok, err, length-append, length-drop, take-append_le, drop-append_le,
}
use shell_proxy.Proto.Frame.{
  Bytes, Error, EventKind, event_kind, EventFrame, EventJson, max_payload, from_le_bytes,
  decode_event,
}
use shell_proxy.Proto.Decoder.{
  Round, wait, fault, took, finish, classify, round, Decoded, turn, decode_loop,
}

not-ltb→le : (a b : ℕ) → ltb a b ≡ false → b ≤ a
not-ltb→le a b h = ground arith

not-ltb-append :
    (n : ℕ) (xs ys : Bytes) → ltb (length xs) n ≡ false → ltb (length (xs ++ ys)) n ≡ false
not-ltb-append n xs ys h = ground (arith, length-append xs ys)

-- A round that gave a frame or an error gives the same with more bytes behind the buffer.
abbrev pub Carries : EventJson → Round → Bytes → Bytes → Type 0
Carries j wait buf more = Unit {0}
Carries j (took frame rest) buf more = round j (buf ++ more) ≡ took frame (rest ++ more)
Carries j (fault e rest) buf more = (r : Bytes) × (round j (buf ++ more) ≡ fault e r)

module _ (j : EventJson) where
  finish-Carries :
      (buf rest more : Bytes) (d : Result EventFrame Error)
      → round j (buf ++ more) ≡ finish j (rest ++ more) d
      → Carries j (finish j rest d) buf more
  unfolding finish
  finish-Carries buf rest more (ok frame) h = h
  finish-Carries buf rest more (err e) h = (rest ++ more, h)

  classify-Carries :
      (buf : Bytes) (len : ℕ) (body more : Bytes) (kind : Result EventKind Error)
      → len ≤ length body
      → round j (buf ++ more) ≡ classify j (buf ++ more) len (body ++ more) kind
      → Carries j (classify j buf len body kind) buf more
  unfolding classify
  classify-Carries buf len body more (err e) h eq = (buf ++ more, eq)
  classify-Carries buf len body more (ok kind) h eq =
      finish-Carries buf (drop len body) more (decode_event j kind (take len body))
        (rw (take-append_le len body more h, drop-append_le len body more h) at eq)

  pub round-Carries : (buf more : Bytes) → Carries j (round j buf) buf more
  unfolding round
  round-Carries [] more = tt
  round-Carries (k ∷ []) more = tt
  round-Carries (k ∷ a ∷ []) more = tt
  round-Carries (k ∷ a ∷ b ∷ []) more = tt
  round-Carries (k ∷ a ∷ b ∷ c ∷ []) more = tt
  round-Carries (k ∷ a ∷ b ∷ c ∷ d ∷ body) more =
      elim (Bool-cases (ltb max_payload (from_le_bytes a b c d))) [
        | inl big ↦ rw big (k ∷ a ∷ b ∷ c ∷ d ∷ (body ++ more), rw (big, round))
        | inr small ↦ elim (Bool-cases (ltb (length body) (from_le_bytes a b c d))) [
          | inl short ↦ rw (small, short) tt
          | inr enough ↦
              rw (small, enough)
                (classify-Carries (k ∷ a ∷ b ∷ c ∷ d ∷ body) (from_le_bytes a b c d) body more
                  (event_kind k) (not-ltb→le _ _ enough) (rw (small, still enough)))
        ]
      ]
    where
      still :
          ltb (length body) (from_le_bytes a b c d) ≡ false
          → ltb (length (body ++ more)) (from_le_bytes a b c d) ≡ false
      still h = not-ltb-append (from_le_bytes a b c d) body more h

  -- What a round takes off the buffer is the header at least.
  abbrev pub IsShorter : Round → Bytes → Type 0
  IsShorter wait buf = Unit {0}
  IsShorter (took frame rest) buf = length rest < length buf
  IsShorter (fault e rest) buf = Unit {0}

  finish-IsShorter :
      (rest buf : Bytes) (d : Result EventFrame Error)
      → length rest < length buf
      → IsShorter (finish j rest d) buf
  unfolding finish
  finish-IsShorter rest buf (ok frame) h = h
  finish-IsShorter rest buf (err e) h = tt

  classify-IsShorter :
      (buf : Bytes) (len : ℕ) (body : Bytes) (kind : Result EventKind Error)
      → length body < length buf
      → IsShorter (classify j buf len body kind) buf
  unfolding classify
  classify-IsShorter buf len body (err e) h = tt
  classify-IsShorter buf len body (ok kind) h =
      finish-IsShorter (drop len body) buf _ (omega (arith, length-drop len body))

  pub round-IsShorter : (buf : Bytes) → IsShorter (round j buf) buf
  unfolding round
  round-IsShorter [] = tt
  round-IsShorter (k ∷ []) = tt
  round-IsShorter (k ∷ a ∷ []) = tt
  round-IsShorter (k ∷ a ∷ b ∷ []) = tt
  round-IsShorter (k ∷ a ∷ b ∷ c ∷ []) = tt
  round-IsShorter (k ∷ a ∷ b ∷ c ∷ d ∷ body) =
      elim (Bool-cases (ltb max_payload (from_le_bytes a b c d))) [
        | inl big ↦ rw big tt
        | inr small ↦ elim (Bool-cases (ltb (length body) (from_le_bytes a b c d))) [
          | inl short ↦ rw (small, short) tt
          | inr enough ↦
              rw (small, enough)
                (classify-IsShorter (k ∷ a ∷ b ∷ c ∷ d ∷ body) (from_le_bytes a b c d) body
                  (event_kind k) (omega arith))
        ]
      ]

  -- Two ways to go on after a round agree if they agree on what the round left.
  turn_agree :
      (r : Round) (buf : Bytes) (out : List EventFrame)
      → (next next' : Bytes → List EventFrame → Decoded) → IsShorter r buf
      → ((rest : Bytes) (o : List EventFrame)
          → length rest < length buf
          → next rest o ≡ next' rest o)
      → turn r buf out next ≡ turn r buf out next'
  unfolding turn
  turn_agree wait buf out next next' h k = refl
  turn_agree (fault e rest) buf out next next' h k = refl
  turn_agree (took frame rest) buf out next next' h k = k rest (out ++ frame ∷ []) h

  -- Fuel past the length of the buffer changes nothing.
  pub decode_loop_fuel :
      (f g : ℕ) (buf : Bytes) (out : List EventFrame)
      → length buf ≤ f
      → length buf ≤ g
      → decode_loop j f buf out ≡ decode_loop j g buf out
  unfolding decode_loop
  decode_loop_fuel zero zero buf out hf hg = refl
  decode_loop_fuel zero (suc g) [] out hf hg = unfold round in refl
  decode_loop_fuel zero (suc g) (x ∷ buf) out hf hg = absurd (omega arith)
  decode_loop_fuel (suc f) zero [] out hf hg = unfold round in refl
  decode_loop_fuel (suc f) zero (x ∷ buf) out hf hg = absurd (omega arith)
  decode_loop_fuel (suc f) (suc g) buf out hf hg =
      turn_agree (round j buf) buf out (decode_loop j f) (decode_loop j g) (round-IsShorter buf)
        λ rest o h. decode_loop_fuel f g rest o (omega arith) (omega arith)
