-- ===== src/Proto/Stream/RoundTrip.antt =====
-- Frames that were written and are read again (crates/sp-proto/src/lib.rs).
use shell_proxy.Prelude.{
  ℕ, ◌+◌, ◌-◌, ◌≤◌, ◌<◌, ◌≡◌, ap, true, false, ◌++◌, arith, Option, some, ltb, length, Result, ok,
  err, length-append, take-append, drop-append,
}
use shell_proxy.Proto.Frame.{
  Bytes, Error, protocol, frame_too_large, max_payload, event_byte, event_kind, EventFrame,
  EventJson, ReadsBack, decode_event, encode_event_frame, exec_byte, exec_kind, ExecFrame, ExecJson,
  decode_exec, encode_exec_frame,
}
use shell_proxy.Proto.Frame.Header.{
  wire, from-to_le_bytes, event_kind-event_byte, exec_kind-exec_byte,
  encode_event_frame-IsEventWire, encode_exec_frame-IsExecWire,
}
use shell_proxy.Proto.Stream.{
  Reader, Read, frame, end, error, out_of_fuel, read_event_frame, read_exec_frame,
}
use shell_proxy.Proto.Stream.Fill.{IsClean, contents}
use shell_proxy.Proto.Stream.Reference.{Agrees, first_frame, payload_of, read_frame_as-Agrees}

module _ {K T : Type 0} (kind_of : ℕ → Result K Error) (decode : K → Bytes → Result T Error) where
  -- The first frame of a frame's bytes.
  pub first_frame-wire :
      (byte : ℕ) (kind : K) (payload rest : Bytes) (t : T)
      → length payload < 4294967296
      → length payload ≤ max_payload
      → kind_of byte ≡ ok kind
      → decode kind payload ≡ ok t
      → first_frame kind_of decode (wire byte payload ++ rest) ≡ ok (some (t, rest))
  unfolding first_frame payload_of
  first_frame-wire byte kind payload rest t fits small e back = rw (
    e,
    from-to_le_bytes (length payload) fits,
    not_big,
    not_short,
    take-append payload rest,
    drop-append payload rest,
    back,
  )
    where
      not_big : ltb max_payload (length payload) ≡ false
      not_big = ground arith

      not_short : ltb (length (payload ++ rest)) (length payload) ≡ false
      not_short = ground (arith, length-append payload rest)

  -- An encoder's frame over the receiver's limit.
  pub first_frame_too_large :
      (byte : ℕ) (kind : K) (payload rest : Bytes)
      → length payload < 4294967296
      → max_payload < length payload
      → kind_of byte ≡ ok kind
      → first_frame kind_of decode (wire byte payload ++ rest)
        ≡ err (protocol (frame_too_large (length payload)))
  unfolding first_frame payload_of
  first_frame_too_large byte kind payload rest fits big e =
      rw (e, from-to_le_bytes (length payload) fits, is_big)
    where
      is_big : ltb max_payload (length payload) ≡ true
      is_big = ground arith

-- The frame, with a stream that holds the bytes behind it.
abbrev pub Delivers : {T : Type 0} → Read T → T → Bytes → Type 0
Delivers (frame t r) u rest = (t ≡ u) × (contents r ≡ rest) × IsClean r
Delivers _ u rest = ⊥

Agrees→Delivers :
    {T : Type 0} (d : Read T) (u : T) (rest : Bytes) (x : Result (Option (T × Bytes)) Error)
    → x ≡ ok (some (u, rest))
    → Agrees d x
    → Delivers d u rest
Agrees→Delivers (frame t r) u rest x e a = rw e at a
Agrees→Delivers end u rest x e a = rw e at a
Agrees→Delivers (error y) u rest x e a = rw e at a
Agrees→Delivers out_of_fuel u rest x e a = elim a [ ]

-- An event frame that was encoded, with a payload within the receiver's limit, is read back from
-- any stream that delivers its bytes and then `rest`, in whatever pieces they arrive, and the
-- stream behind it holds `rest`; provided that the JSON reader reads back reports and pongs.
pub read_event_frame-encode :
    (j : EventJson) (f : EventFrame) (w rest : Bytes) (r : Reader)
    → ReadsBack j.report
    → ReadsBack j.pong
    → encode_event_frame j f ≡ ok w
    → length w ≤ 5 + max_payload
    → IsClean r
    → contents r ≡ w ++ rest
    → Delivers (read_event_frame j r) f rest
unfolding read_event_frame
read_event_frame-encode j f w rest r hr hp h small c all =
    let (kind, payload, whole, fits, back) = encode_event_frame-IsEventWire j f w hr hp h in
    Agrees→Delivers _ f rest _
      (rw (all, whole)
        (first_frame-wire event_kind (decode_event j) (event_byte kind) kind payload rest f fits
          (omega (arith, ap (λ (b : Bytes). length b) whole)) (event_kind-event_byte kind) back))
      (read_frame_as-Agrees event_kind (decode_event j) r c)

-- However a transport cuts the bytes of an encoded frame of the initiator with no payload above the
-- receiver's limit, and whatever comes behind them without a failure, the reader gives that frame
-- and leaves the rest, provided that the JSON reader gives back the requests and signals written.
pub read_exec_frame-encode :
    {E : Type 0} (j : ExecJson E) (f : ExecFrame E) (w rest : Bytes) (r : Reader)
    → ReadsBack j.request
    → ReadsBack j.signal
    → encode_exec_frame j f ≡ ok w
    → length w ≤ 5 + max_payload
    → IsClean r
    → contents r ≡ w ++ rest
    → Delivers (read_exec_frame j r) f rest
unfolding read_exec_frame
read_exec_frame-encode j f w rest r hr hs h small c all =
    let (kind, payload, whole, fits, back) = encode_exec_frame-IsExecWire j f w hr hs h in
    Agrees→Delivers _ f rest _
      (rw (all, whole)
        (first_frame-wire exec_kind (decode_exec j) (exec_byte kind) kind payload rest f fits
          (omega (arith, ap (λ (b : Bytes). length b) whole)) (exec_kind-exec_byte kind) back))
      (read_frame_as-Agrees exec_kind (decode_exec j) r c)

pub Agrees→error :
    {T : Type 0} (d : Read T) (e : Error) (x : Result (Option (T × Bytes)) Error)
    → x ≡ err e
    → Agrees d x
    → d ≡ error e
Agrees→error (frame t r) e x q a = elim (rw q at a) [ ]
Agrees→error end e x q a = elim (rw q at a) [ ]
Agrees→error (error y) e x q a = let same : y ≡ e = rw q at a in ap error same
Agrees→error out_of_fuel e x q a = elim a [ ]

-- The encoders accept what no receiver does: a frame whose payload is over 16 MiB and below 4 GiB
-- is encoded, and reading the encoded bytes from any stream is the error `frame too large`.
pub read_event_frame_too_large :
    (j : EventJson) (f : EventFrame) (w rest : Bytes) (r : Reader)
    → ReadsBack j.report
    → ReadsBack j.pong
    → encode_event_frame j f ≡ ok w
    → 5 + max_payload < length w
    → IsClean r
    → contents r ≡ w ++ rest
    → read_event_frame j r ≡ error (protocol (frame_too_large (length w - 5)))
unfolding read_event_frame
read_event_frame_too_large j f w rest r hr hp h big c all =
    let (kind, payload, whole, fits, back) = encode_event_frame-IsEventWire j f w hr hp h in
    let size : length w ≡ 5 + length payload = omega (arith, ap (λ (b : Bytes). length b) whole) in
    let same : length payload ≡ length w - 5 = omega arith in
    rw (← same) (
      Agrees→error _ _ _
        (rw (all, whole)
          (first_frame_too_large event_kind (decode_event j) (event_byte kind) kind payload rest
            fits (omega arith) (event_kind-event_byte kind)))
        (read_frame_as-Agrees event_kind (decode_event j) r c))
