-- ===== src/Proto/Decoder/RoundTrip.antt =====
-- Frames that `encode_event_frame` wrote and `EventDecoder` reads (crates/sp-proto/src/lib.rs).
use shell_proxy.Prelude.{
  ℕ, zero, suc, ◌+◌, ◌≤◌, ◌<◌, ◌≡◌, refl, ap, ◌∙◌, false, List, [], ◌∷◌, ◌++◌, arith, length, ltb,
  concat, take-append, drop-append, append-nil, append_assoc, ok, length-append,
}
use shell_proxy.Proto.Frame.{
  Bytes, EventFrame, EventJson, ReadsBack, EventKind, event_byte, decode_event, max_payload,
  encode_event_frame,
}
use shell_proxy.Proto.Frame.Header.{
  wire, from-to_le_bytes, event_kind-event_byte, encode_event_frame-IsEventWire,
}
use shell_proxy.Proto.Decoder.{new, Round, took, finish, classify, round, turn, decode_loop, push}
use shell_proxy.Proto.Decoder.Steps.{round-IsShorter}
use shell_proxy.Proto.Decoder.Chunks.{feed, feed-concat}

-- `wires` are the encodings of `frames`, none over the limit of the receiver.
abbrev pub Encodes : EventJson → List EventFrame → List Bytes → Type 0
Encodes j [] [] = Unit {0}
Encodes j (frame ∷ frames) (w ∷ wires) =
    (encode_event_frame j frame ≡ ok w) × (length w ≤ 5 + max_payload) × Encodes j frames wires
Encodes j _ _ = ⊥

module _ (j : EventJson) where
  round_frame :
      (kind : EventKind) (payload rest : Bytes) (frame : EventFrame)
      → length payload ≤ max_payload
      → decode_event j kind payload ≡ ok frame
      → round j (wire (event_byte kind) payload ++ rest) ≡ took frame rest
  unfolding round classify finish
  round_frame kind payload rest frame small back = rw (
    from-to_le_bytes (length payload) (omega arith),
    not_big,
    not_short,
    event_kind-event_byte kind,
    take-append payload rest,
    drop-append payload rest,
    back,
  )
    where
      not_big : ltb max_payload (length payload) ≡ false
      not_big = ground arith

      not_short : ltb (length (payload ++ rest)) (length payload) ≡ false
      not_short = ground (arith, length-append payload rest)

  round_encoded :
      (frame : EventFrame) (w rest : Bytes)
      → ReadsBack j.report
      → ReadsBack j.pong
      → encode_event_frame j frame ≡ ok w
      → length w ≤ 5 + max_payload
      → round j (w ++ rest) ≡ took frame rest
  round_encoded frame w rest hr hp h small =
      let (kind, payload, whole, _, back) = encode_event_frame-IsEventWire j frame w hr hp h in
      rw whole (
        round_frame kind payload rest frame (omega (arith, ap (λ (b : Bytes). length b) whole))
          back)

  encoded_shorter :
      (frame : EventFrame) (w rest : Bytes)
      → ReadsBack j.report
      → ReadsBack j.pong
      → encode_event_frame j frame ≡ ok w
      → length w ≤ 5 + max_payload
      → length rest < length (w ++ rest)
  encoded_shorter frame w rest hr hp h small =
      rw (round_encoded frame w rest hr hp h small) at (round-IsShorter j (w ++ rest))

  loop_wires :
      (f : ℕ) (frames : List EventFrame) (wires : List Bytes) (out : List EventFrame)
      → ReadsBack j.report
      → ReadsBack j.pong
      → Encodes j frames wires
      → length (concat wires) ≤ f
      → decode_loop j f (concat wires) out ≡ ([], ok (out ++ frames))
  unfolding decode_loop
  loop_wires zero [] [] out hr hp h fuel = rw append-nil
  loop_wires (suc f) [] [] out hr hp h fuel = rw append-nil (unfold round turn in refl)
  loop_wires f [] (w ∷ wires) out hr hp h fuel = elim h [ ]
  loop_wires f (frame ∷ frames) [] out hr hp h fuel = elim h [ ]
  loop_wires zero (frame ∷ frames) (w ∷ wires) out hr hp (e, small, more) fuel =
      absurd (omega (arith, encoded_shorter frame w (concat wires) hr hp e small))
  loop_wires (suc f) (frame ∷ frames) (w ∷ wires) out hr hp (e, small, more) fuel =
      ap (λ (r : Round). turn r (w ++ concat wires) out (decode_loop j f))
        (round_encoded frame w (concat wires) hr hp e small)
      ∙ go (
          loop_wires f frames wires (out ++ frame ∷ []) hr hp more
            (omega (arith, encoded_shorter frame w (concat wires) hr hp e small)))
    where
      go :
          decode_loop j f (concat wires) (out ++ frame ∷ [])
            ≡ ([], ok ((out ++ frame ∷ []) ++ frames))
          → turn (took frame (concat wires)) (w ++ concat wires) out (decode_loop j f)
            ≡ ([], ok (out ++ frame ∷ frames))
      go h = unfold turn in rw h (rw append_assoc)

-- Any frames that were encoded, none with a payload above the receiver's limit, sent one after the
-- other and received in any chunks, come out of a new decoder as the same frames in the same order,
-- provided that the JSON reader gives back the reports and pongs that the JSON writer wrote.
pub feed-encode :
    (j : EventJson) (frames : List EventFrame) (wires chunks : List Bytes)
    → ReadsBack j.report
    → ReadsBack j.pong
    → Encodes j frames wires
    → concat chunks ≡ concat wires
    → feed j new chunks ≡ ok frames
unfolding push new
feed-encode j frames wires chunks hr hp h same =
    feed-concat j chunks
    ∙ rw same (rw (loop_wires j (length (concat wires)) frames wires [] hr hp h (omega arith)))
