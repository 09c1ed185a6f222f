-- ===== src/Client/Capture/Prefix.antt =====
-- What a capped sink of src/client.rs holds: a prefix of the stream, and the count of the rest.
use shell_proxy.Prelude.{
  ℕ, zero, suc, ◌+◌, ◌-◌, ◌*◌, ◌^◌, ◌≤◌, ◌<◌, ◌≡◌, refl, sym, ap, ◌∙◌, inl, inr, List, [], ◌∷◌,
  ◌++◌, arith, leb, leb→le, Bool-cases, length, take, concat, length-take, length-append,
  append-nil, append_assoc,
}
use shell_proxy.Proto.Frame.{Bytes}
use shell_proxy.Client.Capture.{
  capture_cap, append_capped, CappedSink, empty_sink, poll_write, write_chunks,
}

take-split : (n : ℕ) (xs ys : Bytes) → take n (xs ++ ys) ≡ take n xs ++ take (n - length xs) ys
take-split zero [] ys = refl
take-split zero (x ∷ xs) ys =
    let none_left : 0 ≡ 0 - length (x ∷ xs) = omega arith in ap (λ (m : ℕ). take m ys) none_left
take-split (suc n) [] ys =
    let all_left : suc n ≡ suc n - 0 = omega arith in ap (λ (m : ℕ). take m ys) all_left
take-split (suc n) (x ∷ xs) ys =
    let both : n - length xs ≡ suc n - length (x ∷ xs) = omega arith in
    ap (λ (t : Bytes). x ∷ t) (take-split n xs ys ∙ ap (λ (m : ℕ). take n xs ++ take m ys) both)

take_all : (n : ℕ) (xs : Bytes) → length xs ≤ n → take n xs ≡ xs
take_all zero [] h = refl
take_all zero (x ∷ xs) h = absurd (omega arith)
take_all (suc n) [] h = refl
take_all (suc n) (x ∷ xs) h = ap (λ (t : Bytes). x ∷ t) (take_all n xs (omega arith))

-- The sink for a stream of bytes.
abbrev Holds : CappedSink → Bytes → Type 0
Holds s stream = (s.buf ≡ take capture_cap stream) × (s.dropped ≡ length stream - capture_cap)

-- The room that a prefix leaves.
room_left :
    (cap : ℕ) (buf stream : Bytes) → buf ≡ take cap stream → cap - length buf ≡ cap - length stream
room_left cap buf stream e = omega (arith, length-take cap stream, ap (λ (b : Bytes). length b) e)

append_capped-prefix :
    (cap : ℕ) (buf stream chunk : Bytes)
    → buf ≡ take cap stream
    → (append_capped buf cap chunk).0 ≡ take cap (stream ++ chunk)
unfolding append_capped
append_capped-prefix cap buf stream chunk e =
    elim (Bool-cases (leb (length chunk) (cap - length buf))) [
      | inl fits ↦
          let room : length chunk ≤ cap - length stream =
            omega (arith, room_left cap buf stream e, leb→le _ _ fits) in
          rw fits (
            ap (λ (b : Bytes). b ++ chunk) e
            ∙ ap (λ (c : Bytes). take cap stream ++ c)
                (sym (take_all (cap - length stream) chunk room))
            ∙ sym (take-split cap stream chunk))
      | inr over ↦ rw over (
          ap (λ (b : Bytes). b ++ take (cap - length buf) chunk) e
          ∙ ap (λ (n : ℕ). take cap stream ++ take n chunk) (room_left cap buf stream e)
          ∙ sym (take-split cap stream chunk))
    ]

append_capped_lost :
    (cap : ℕ) (buf stream chunk : Bytes)
    → buf ≡ take cap stream
    → (length stream - cap) + (append_capped buf cap chunk).1 ≡ length (stream ++ chunk) - cap
unfolding append_capped
append_capped_lost cap buf stream chunk e =
    elim (Bool-cases (leb (length chunk) (cap - length buf))) [
      | inl fits ↦ rw fits (
          omega (
            arith,
            room_left cap buf stream e,
            leb→le _ _ fits,
            length-append stream chunk,
            length-take cap stream,
            ap (λ (b : Bytes). length b) e,
          ))
      | inr over ↦ rw over (omega (arith, room_left cap buf stream e, length-append stream chunk))
    ]

poll_write-Holds :
    (s : CappedSink) (stream chunk : Bytes)
    → length (stream ++ chunk) < 2 ^ 64
    → Holds s stream
    → Holds (poll_write s chunk).0 (stream ++ chunk)
unfolding poll_write
poll_write-Holds s stream chunk h (b, d) = (
  append_capped-prefix capture_cap s.buf stream chunk b,
  omega (arith, h, d, append_capped_lost capture_cap s.buf stream chunk b),
)

write_chunks-Holds :
    (s : CappedSink) (stream : Bytes) (cs : List Bytes)
    → length (stream ++ concat cs) < 2 ^ 64
    → Holds s stream
    → Holds (write_chunks s cs) (stream ++ concat cs)
unfolding write_chunks
write_chunks-Holds s stream [] h held = rw (append-nil stream) held
write_chunks-Holds s stream (c ∷ cs) h held = rw (sym (append_assoc stream c (concat cs))) (
    write_chunks-Holds (poll_write s c).0 (stream ++ c) cs
      (omega (arith, h, ap (λ (b : Bytes). length b) (append_assoc stream c (concat cs))))
      (poll_write-Holds s stream c
        (omega (
          arith,
          h,
          ap (λ (b : Bytes). length b) (append_assoc stream c (concat cs)),
          length-append (stream ++ c) (concat cs),
        ))
        held))

-- However the output of a command is cut into writes, a captured run keeps its first 512 KiB and
-- counts exactly the bytes behind them, as long as the whole is shorter than 2 ^ 64 bytes.
pub write_chunks-prefix :
    (cs : List Bytes)
    → length (concat cs) < 2 ^ 64
    → ((write_chunks empty_sink cs).buf ≡ take (512 * 1024) (concat cs))
      × ((write_chunks empty_sink cs).dropped ≡ length (concat cs) - 512 * 1024)
write_chunks-prefix cs h = write_chunks-Holds empty_sink [] cs h (refl, refl)
