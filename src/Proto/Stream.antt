-- ===== src/Proto/Stream.antt =====
-- Reading and writing frames on a byte stream: `read_frame_as`, `write_exec_frame`,
-- `write_event_frame` and `write_raw` of crates/sp-proto/src/lib.rs.
pub mod Fill
pub mod Reference
pub mod RoundTrip
pub mod Writes
pub mod Cut
use shell_proxy.Prelude.{
  ℕ, zero, suc, ◌+◌, ◌-◌, ◌*◌, ◌<◌, ◌≡◌, Bool, List, [], ◌∷◌, ◌++◌, ltb, leb, if◌then◌else◌, length,
  take, drop, Result, ok, err, ◌>>=◌, map_ok, Text,
}
use shell_proxy.Proto.Frame.{
  Bytes, Error, io, protocol, frame_too_large, partial_header, partial_payload, ExecKind, EventKind,
  exec_byte, event_byte, exec_kind, event_kind, ExecFrame, exec, stdin_data, stdin_eof, signal,
  ping, EventFrame, stdout, stderr, exit, pong, EventJson, ExecJson, max_payload, from_le_bytes,
  frame_header, decode_event, encode_event_frame, decode_exec, encode_exec_frame,
}

-- What the transport has in store: bytes that arrive together, or a failure. After the last comes
-- the end of the stream.
pub data Arrival : Type 0 where
  chunk : Bytes → Arrival
  failure : Text → Arrival

abbrev pub Reader : Type 0
Reader = List Arrival

-- `AsyncReadExt::read` into a buffer with room for `room` bytes. No bytes mean the end.
pub read : ℕ → Reader → Result (Bytes × Reader) Error
read room [] = ok ([], [])
read room (chunk c ∷ r) =
    if leb (length c) room then ok (c, r) else ok (take room c, chunk (drop room c) ∷ r)
read room (failure e ∷ r) = err (io e)

-- How a read loop ends. `stuck` is no outcome of the source: the fuel ran out.
pub data Filled : Type 0 where
  full : Bytes → Reader → Filled
  closed : Bytes → Filled
  failed : Error → Filled
  stuck : Filled

pub arrived : Result (Bytes × Reader) Error → Bytes → (Bytes → Reader → Filled) → Filled
arrived (err e) buf next = failed e
arrived (ok ([], r)) buf next = closed buf
arrived (ok (b ∷ bs, r)) buf next = next (buf ++ b ∷ bs) r

-- `while filled < want { read; if n == 0 {...} }`. A round brings a byte at least.
pub fill : ℕ → ℕ → Bytes → Reader → Filled
unfolding read arrived
fill zero want buf r = if ltb (length buf) want then stuck else full buf r
fill (suc fuel) want buf r =
    if ltb (length buf) want
    then arrived (read (want - length buf) r) buf (fill fuel want)
    else full buf r

-- `Ok(Some(frame))` with the stream behind it, `Ok(None)`, or an error.
pub data Read (T : Type 0) : Type 0 where
  frame : T → Reader → Read T
  end : Read T
  error : Error → Read T
  out_of_fuel : Read T

module _ {K T : Type 0} (kind_of : ℕ → Result K Error) (decode : K → Bytes → Result T Error) where
  pub decoded : Result T Error → Reader → Read T
  decoded (ok t) r = frame t r
  decoded (err e) r = error e

  pub with_payload : K → ℕ → Filled → Read T
  unfolding decoded
  with_payload kind len (full payload r) = decoded (decode kind payload) r
  with_payload kind len (closed payload) = error (protocol (partial_payload (length payload) len))
  with_payload kind len (failed e) = error e
  with_payload kind len stuck = out_of_fuel

  pub with_kind : Result K Error → ℕ → Reader → Read T
  unfolding with_payload fill
  with_kind (err e) len r = error e
  with_kind (ok kind) len r =
      if ltb max_payload len
      then error (protocol (frame_too_large len))
      else with_payload kind len (fill len len [] r)

  pub with_header : Filled → Read T
  unfolding with_kind
  with_header (full (k ∷ a ∷ b ∷ c ∷ d ∷ []) r) = with_kind (kind_of k) (from_le_bytes a b c d) r
  with_header (full _ r) = out_of_fuel
  with_header (closed []) = end
  with_header (closed (b ∷ bs)) = error (protocol (partial_header (length (b ∷ bs))))
  with_header (failed e) = error e
  with_header stuck = out_of_fuel

  pub read_frame_as : Reader → Read T
  unfolding with_header
  read_frame_as r = with_header (fill 5 5 [] r)

pub read_event_frame : EventJson → Reader → Read EventFrame
unfolding read_frame_as
read_event_frame j = read_frame_as event_kind (decode_event j)

pub read_exec_frame : {E : Type 0} → ExecJson E → Reader → Read (ExecFrame E)
unfolding read_frame_as
read_exec_frame j = read_frame_as exec_kind (decode_exec j)

abbrev pub packed_payload_max : ℕ
packed_payload_max = 8 * 1024

-- The buffers that are handed to `write_all`, in order.
abbrev pub Writes : Type 0
Writes = List Bytes

pub write_raw : ℕ → Bytes → Result Writes Error
write_raw kind payload = do hdr ← frame_header kind (length payload); ok (hdr ∷ payload ∷ [])

pub packed : Result Bytes Error → Result Writes Error
packed = map_ok (λ w. w ∷ [])

pub write_event_frame : EventJson → EventFrame → Result Writes Error
unfolding write_raw packed
write_event_frame j (stdout d) =
    if leb packed_payload_max (length d)
    then write_raw (event_byte EventKind.stdout) d
    else packed (encode_event_frame j (stdout d))
write_event_frame j (stderr d) =
    if leb packed_payload_max (length d)
    then write_raw (event_byte EventKind.stderr) d
    else packed (encode_event_frame j (stderr d))
write_event_frame j (exit r) = packed (encode_event_frame j (exit r))
write_event_frame j (pong p) = packed (encode_event_frame j (pong p))

pub write_exec_frame : {E : Type 0} → ExecJson E → ExecFrame E → Result Writes Error
unfolding write_raw packed
write_exec_frame j (stdin_data d) =
    if leb packed_payload_max (length d)
    then write_raw (exec_byte ExecKind.stdin_data) d
    else packed (encode_exec_frame j (stdin_data d))
write_exec_frame j (exec e) = packed (encode_exec_frame j (exec e))
write_exec_frame j stdin_eof = packed (encode_exec_frame j stdin_eof)
write_exec_frame j (signal s) = packed (encode_exec_frame j (signal s))
write_exec_frame j ping = packed (encode_exec_frame j ping)
