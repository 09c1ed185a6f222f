-- ===== src/Proto/Decoder.antt =====
-- `EventDecoder` of crates/sp-proto/src/lib.rs: frames out of chunks that may split or join them.
-- The release of a large empty buffer changes the capacity alone, which the model does not hold.
pub mod Steps
pub mod Chunks
pub mod RoundTrip
use shell_proxy.Prelude.{
  ℕ, zero, suc, ◌+◌, ◌<◌, ◌≡◌, List, [], ◌∷◌, ◌++◌, ltb, if◌then◌else◌, length, take, drop, Result,
  ok, err,
}
use shell_proxy.Proto.Frame.{
  Bytes, Error, protocol, frame_too_large, EventKind, event_kind, EventFrame, EventJson,
  max_payload, from_le_bytes, decode_event,
}

pub record EventDecoder : Type 0 where
  pub buf : Bytes

pub new : EventDecoder
new = record { buf = [] }

-- One round of the loop in `push`: wait for more bytes, stop with an error, or give a frame. An
-- error leaves the bytes that the round did not take off the buffer.
pub data Round : Type 0 where
  wait : Round
  fault : Error → Bytes → Round
  took : EventFrame → Bytes → Round

-- The bytes that stay in the buffer, and what `push` returns.
abbrev pub Decoded : Type 0
Decoded = Bytes × Result (List EventFrame) Error

-- What the loop does after a round; `next` is the loop itself.
pub turn : Round → Bytes → List EventFrame → (Bytes → List EventFrame → Decoded) → Decoded
turn wait buf out next = (buf, ok out)
turn (fault e rest) buf out next = (rest, err e)
turn (took frame rest) buf out next = next rest (out ++ frame ∷ [])

module _ (j : EventJson) where
  -- The frame is off the buffer when its payload is decoded.
  finish : Bytes → Result EventFrame Error → Round
  finish rest (ok frame) = took frame rest
  finish rest (err e) = fault e rest

  classify : Bytes → ℕ → Bytes → Result EventKind Error → Round
  unfolding finish
  classify buf len body (ok kind) = finish (drop len body) (decode_event j kind (take len body))
  classify buf len body (err e) = fault e buf

  pub round : Bytes → Round
  unfolding classify
  round (k ∷ a ∷ b ∷ c ∷ d ∷ body) =
      let len = from_le_bytes a b c d in
      if ltb max_payload len
      then fault (protocol (frame_too_large len)) (k ∷ a ∷ b ∷ c ∷ d ∷ body)
      else if ltb (length body) len
      then wait
      else classify (k ∷ a ∷ b ∷ c ∷ d ∷ body) len body (event_kind k)
  round _ = wait

  -- The loop. Every round takes five bytes at least, so the length of the buffer is fuel enough.
  pub decode_loop : ℕ → Bytes → List EventFrame → Decoded
  unfolding turn
  decode_loop zero buf out = (buf, ok out)
  decode_loop (suc fuel) buf out = turn (round buf) buf out (decode_loop fuel)

  pub push : EventDecoder → Bytes → EventDecoder × Result (List EventFrame) Error
  unfolding decode_loop
  push s chunk =
      let buf = s.buf ++ chunk in
      let (rest, out) = decode_loop (length buf) buf [] in (record { buf = rest }, out)
