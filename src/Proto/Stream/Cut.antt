-- ===== src/Proto/Stream/Cut.antt =====
-- A connection that closes inside a frame (crates/sp-proto/src/lib.rs).
use shell_proxy.Prelude.{
  ℕ, zero, suc, ◌+◌, ◌-◌, ◌≤◌, ◌<◌, ◌≡◌, ◌≢◌, refl, sym, ap, ◌∙◌, [], ◌∷◌, ◌++◌, arith, ltb,
  if◌then◌else◌, length, Result, ok, err, length-append,
}
use shell_proxy.Proto.Frame.{
  Bytes, Error, protocol, Message, partial_header, partial_payload, max_payload, from_le_bytes,
  event_byte, event_kind, EventFrame, EventJson, ReadsBack, decode_event, encode_event_frame,
}
use shell_proxy.Proto.Frame.Header.{wire, event_kind-event_byte, encode_event_frame-IsEventWire}
use shell_proxy.Proto.Stream.{Reader, error, read_event_frame}
use shell_proxy.Proto.Stream.Fill.{IsClean, contents}
use shell_proxy.Proto.Stream.Reference.{first_frame, payload_of, read_frame_as-Agrees}
use shell_proxy.Proto.Stream.RoundTrip.{Agrees→error}

-- What the error says of `got` bytes of a frame of `size` bytes.
abbrev pub cut_message : ℕ → ℕ → Message
cut_message got size =
    if ltb got 5 then partial_header got else partial_payload (got - 5) (size - 5)

nth : ℕ → Bytes → ℕ
nth i [] = 0
nth zero (b ∷ bs) = b
nth (suc i) (b ∷ bs) = nth i bs

module _ {K T : Type 0} (kind_of : ℕ → Result K Error) (decode : K → Bytes → Result T Error) where
  first_frame_cut :
      (byte : ℕ) (kind : K) (payload front back : Bytes) (x : ℕ)
      → length payload ≤ max_payload
      → kind_of byte ≡ ok kind
      → front ≢ []
      → wire byte payload ≡ front ++ x ∷ back
      → first_frame kind_of decode front
        ≡ err (protocol (cut_message (length front) (5 + length payload)))
  unfolding first_frame nth
  first_frame_cut byte kind payload [] back x small e some_front w = absurd (some_front refl)
  first_frame_cut byte kind payload (k ∷ []) back x small e some_front w = refl
  first_frame_cut byte kind payload (k ∷ a ∷ []) back x small e some_front w = refl
  first_frame_cut byte kind payload (k ∷ a ∷ b ∷ []) back x small e some_front w = refl
  first_frame_cut byte kind payload (k ∷ a ∷ b ∷ c ∷ []) back x small e some_front w = refl
  first_frame_cut byte kind payload (k ∷ a ∷ b ∷ c ∷ d ∷ front) back x small e some_front w =
      rw (kind_k, len_eq) (unfold payload_of in ground (arith, shorter))
    where
      kind_k : kind_of k ≡ ok kind
      kind_k = rw (ap (nth 0) w) at e

      len_eq : from_le_bytes a b c d ≡ length payload
      len_eq = omega (arith, ap (nth 1) w, ap (nth 2) w, ap (nth 3) w, ap (nth 4) w)

      shorter : length front < length payload
      shorter = omega (arith, ap (λ (t : Bytes). length t) w, length-append front (x ∷ back))

-- A stream that ends inside an encoded event frame, after a byte of it at least, is the protocol
-- error that tells how many bytes arrived: never a clean end, and never a frame. This holds at
-- every point where the frame can be cut.
pub read_event_frame_cut :
    (j : EventJson) (f : EventFrame) (w front back : Bytes) (x : ℕ) (r : Reader)
    → ReadsBack j.report
    → ReadsBack j.pong
    → encode_event_frame j f ≡ ok w
    → length w ≤ 5 + max_payload
    → w ≡ front ++ x ∷ back
    → front ≢ []
    → IsClean r
    → contents r ≡ front
    → read_event_frame j r ≡ error (protocol (cut_message (length front) (length w)))
unfolding read_event_frame
read_event_frame_cut j f w front back x r hr hp h small split some_front c all =
    let (kind, payload, whole, fits, _) = encode_event_frame-IsEventWire j f w hr hp h in
    let size : length w ≡ 5 + length payload = omega (arith, ap (λ (b : Bytes). length b) whole) in
    rw size (
      Agrees→error _ _ _
        (rw all (
          first_frame_cut event_kind (decode_event j) (event_byte kind) kind payload front back x
            (omega arith) (event_kind-event_byte kind) some_front (sym whole ∙ split)))
        (read_frame_as-Agrees event_kind (decode_event j) r c))
