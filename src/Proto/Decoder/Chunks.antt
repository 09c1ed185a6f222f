-- ===== src/Proto/Decoder/Chunks.antt =====
-- How a frame stream is cut into chunks makes no difference to `EventDecoder`
-- (crates/sp-proto/src/lib.rs).
use shell_proxy.Prelude.{
  ℕ, zero, suc, ◌≤◌, ◌<◌, ◌≡◌, refl, sym, ap, ◌∙◌, List, [], ◌∷◌, ◌++◌, arith, length, concat,
  Result, ok, err, ◌>>=◌, map_ok, length-append, append-nil, append_assoc,
}
use shell_proxy.Proto.Frame.{Bytes, Error, EventFrame, EventJson}
use shell_proxy.Proto.Decoder.{
  EventDecoder, new, Round, wait, fault, took, round, Decoded, turn, decode_loop, push,
}
use shell_proxy.Proto.Decoder.Steps.{
  Carries, round-Carries, IsShorter, round-IsShorter, decode_loop_fuel,
}

-- A receiver's use of the decoder: every chunk is pushed, and the first error ends it.
unfoldable pub feed : EventJson → EventDecoder → List Bytes → Result (List EventFrame) Error
feed j s [] = ok []
feed j s (chunk ∷ chunks) = do
  frames ← (push j s chunk).1
  more ← feed j (push j s chunk).0 chunks
  ok (frames ++ more)

-- The loop on a buffer with fuel enough.
abbrev run : EventJson → Bytes → List EventFrame → Decoded
run j buf out = decode_loop j (length buf) buf out

-- A run on `buf` that ended well goes on with the bytes behind it; one that failed fails again.
abbrev Continues : EventJson → Decoded → Bytes → Decoded → Type 0
Continues j (left, ok out) more whole = whole ≡ run j (left ++ more) out
Continues j (left, err e) more whole = whole.1 ≡ err e

module _ (j : EventJson) where
  run_step :
      (f : ℕ) (buf : Bytes) (out : List EventFrame)
      → length buf ≤ suc f
      → run j buf out ≡ turn (round j buf) buf out (decode_loop j f)
  unfolding decode_loop
  run_step f buf out h = decode_loop_fuel j (length buf) (suc f) buf out (omega arith) h

  turn-Continues :
      (r : Round) (buf more : Bytes) (out : List EventFrame) (f : ℕ)
      → length (buf ++ more) ≤ suc f
      → Carries j r buf more
      → IsShorter j r buf
      → ((rest : Bytes) (o : List EventFrame)
          → length rest < length buf
          → Continues j (decode_loop j f rest o) more (run j (rest ++ more) o))
      → Continues j (turn r buf out (decode_loop j f)) more (run j (buf ++ more) out)
  unfolding turn
  turn-Continues wait buf more out f hf c s ih = refl
  turn-Continues (fault e rest) buf more out f hf (r, c) s ih =
      rw (run_step f (buf ++ more) out hf) (rw c)
  turn-Continues (took frame rest) buf more out f hf c s ih = rw (run_step f (buf ++ more) out hf) (
      rw
        (
          c,
          decode_loop_fuel j f (length (rest ++ more)) (rest ++ more) (out ++ frame ∷ [])
              (omega (arith, length-append rest more, length-append buf more)) (omega arith),
        )
        (ih rest (out ++ frame ∷ []) s))

  loop-Continues :
      (f : ℕ) (buf more : Bytes) (out : List EventFrame)
      → length (buf ++ more) ≤ f
      → Continues j (decode_loop j f buf out) more (run j (buf ++ more) out)
  unfolding decode_loop
  loop-Continues zero [] more out h = refl
  loop-Continues zero (x ∷ buf) more out h = absurd (omega arith)
  loop-Continues (suc f) buf more out h =
      turn-Continues (round j buf) buf more out f h (round-Carries j buf more)
        (round-IsShorter j buf)
        λ rest o s.
          loop-Continues f rest more o
            (omega (arith, length-append rest more, length-append buf more))

  run-Continues :
      (buf more : Bytes) (out : List EventFrame)
      → Continues j (run j buf out) more (run j (buf ++ more) out)
  run-Continues buf more out =
      rw
        (decode_loop_fuel j (length buf) (length (buf ++ more)) buf out (omega arith)
          (omega (arith, length-append buf more)))
        (loop-Continues (length (buf ++ more)) buf more out (omega arith))

  -- The frames of earlier rounds stay in front.
  prepend : List EventFrame → Decoded → Decoded
  prepend out (left, r) = (left, map_ok (λ o. out ++ o) r)

  prepend_twice :
      (out o : List EventFrame) (d : Decoded) → prepend (out ++ o) d ≡ prepend out (prepend o d)
  unfolding prepend
  prepend_twice out o (left, ok p) = rw append_assoc
  prepend_twice out o (left, err e) = refl

  turn-prepend :
      (r : Round) (buf : Bytes) (out : List EventFrame) (next : Bytes → List EventFrame → Decoded)
      → ((rest : Bytes) (o : List EventFrame) → next rest o ≡ prepend o (next rest []))
      → turn r buf out next ≡ prepend out (turn r buf [] next)
  unfolding turn
  turn-prepend wait buf out next ih = unfold prepend in rw append-nil
  turn-prepend (fault e rest) buf out next ih = unfold prepend in refl
  turn-prepend (took frame rest) buf out next ih =
      ih rest (out ++ frame ∷ [])
      ∙ prepend_twice out (frame ∷ []) (next rest [])
      ∙ ap (prepend out) (sym (ih rest (frame ∷ [])))

  loop_prepend :
      (f : ℕ) (buf : Bytes) (out : List EventFrame)
      → decode_loop j f buf out ≡ prepend out (decode_loop j f buf [])
  unfolding decode_loop
  loop_prepend zero buf out = unfold prepend in rw append-nil
  loop_prepend (suc f) buf out =
      turn-prepend (round j buf) buf out (decode_loop j f) (loop_prepend f)

  -- After a good run the buffer holds no whole frame.
  Rests : Decoded → Type 0
  Rests (left, ok out) = round j left ≡ wait
  Rests (left, err e) = Unit {0}

  turn-Rests :
      (r : Round) (buf : Bytes) (out : List EventFrame) (next : Bytes → List EventFrame → Decoded)
      → round j buf ≡ r
      → IsShorter j r buf
      → ((rest : Bytes) (o : List EventFrame) → length rest < length buf → Rests (next rest o))
      → Rests (turn r buf out next)
  unfolding turn Rests
  turn-Rests wait buf out next e s ih = e
  turn-Rests (fault x rest) buf out next e s ih = tt
  turn-Rests (took frame rest) buf out next e s ih = ih rest (out ++ frame ∷ []) s

  loop-Rests :
      (f : ℕ) (buf : Bytes) (out : List EventFrame)
      → length buf ≤ f
      → Rests (decode_loop j f buf out)
  unfolding decode_loop
  loop-Rests zero [] out h = unfold Rests round in refl
  loop-Rests zero (x ∷ buf) out h = absurd (omega arith)
  loop-Rests (suc f) buf out h =
      turn-Rests (round j buf) buf out (decode_loop j f) refl (round-IsShorter j buf)
        λ rest o s. loop-Rests f rest o (omega arith)

  extend : List EventFrame → Result (List EventFrame) Error → Result (List EventFrame) Error
  extend frames r = do more ← r; ok (frames ++ more)

  prepend-extend : (o : List EventFrame) (d : Decoded) → (prepend o d).1 ≡ extend o d.1
  unfolding prepend extend
  prepend-extend o (left, ok p) = refl
  prepend-extend o (left, err e) = refl

  -- One chunk of `feed`, from what its push gave.
  feed_chunk :
      (d : Decoded) (rest : Bytes) (whole : Decoded)
      (after : EventDecoder → Result (List EventFrame) Error)
      → Rests d
      → Continues j d rest whole
      → ((left : Bytes)
          → round j left ≡ wait
          → after (record { buf = left }) ≡ (run j (left ++ rest) []).1)
      → (d.1 >>= λ frames. extend frames (after (record { buf = d.0 }))) ≡ whole.1
  unfolding Rests
  feed_chunk (left, err e) rest whole after r c ih = sym c
  feed_chunk (left, ok o) rest whole after r c ih =
      ap (extend o) (ih left r)
      ∙ sym (prepend-extend o (run j (left ++ rest) []))
      ∙ ap (λ (d : Decoded). d.1) (sym (c ∙ loop_prepend _ (left ++ rest) o))

  feed-run :
      (chunks : List Bytes) (buf : Bytes)
      → round j buf ≡ wait
      → feed j (record { buf = buf }) chunks ≡ (run j (buf ++ concat chunks) []).1
  unfolding feed push extend
  feed-run [] buf w =
      rw (append-nil, run_step (length buf) buf [] (omega arith), w) (unfold turn in refl)
  feed-run (chunk ∷ chunks) buf w = rw (← append_assoc buf chunk (concat chunks)) (
      feed_chunk (run j (buf ++ chunk) []) (concat chunks)
        (run j ((buf ++ chunk) ++ concat chunks) []) (λ s. feed j s chunks)
        (loop-Rests (length (buf ++ chunk)) (buf ++ chunk) [] (omega arith))
        (run-Continues (buf ++ chunk) (concat chunks) []) (feed-run chunks))

-- Whatever the chunks, feeding them one by one to a new decoder gives what one push of all their
-- bytes gives: the same frames in the same order, or the same first error.
pub feed-concat :
    (j : EventJson) (chunks : List Bytes) → feed j new chunks ≡ (push j new (concat chunks)).1
unfolding push new
feed-concat j chunks = feed-run j chunks [] (unfold round in refl)
