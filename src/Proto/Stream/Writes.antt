-- ===== src/Proto/Stream/Writes.antt =====
-- The split write path of `write_exec_frame` and `write_event_frame` (crates/sp-proto/src/lib.rs).
use shell_proxy.Prelude.{
  ℕ, ◌≡◌, refl, sym, ◌∙◌, true, false, [], ◌∷◌, ◌++◌, Bool, if◌then◌else◌, length, concat, Result,
  ok, err, ◌>>=◌, map_ok, append-nil,
}
use shell_proxy.Proto.Frame.{
  Bytes, Error, EventKind, event_byte, EventFrame, stdout, stderr, exit, pong, EventJson,
  encode_raw, frame_header, encode_event_frame, ExecKind, exec_byte, ExecFrame, exec, stdin_data,
  stdin_eof, signal, ping, ExecJson, encode_exec_frame,
}
use shell_proxy.Proto.Stream.{Writes, write_raw, packed, write_event_frame, write_exec_frame}

-- The bytes that reach the wire.
abbrev pub written : Result Writes Error → Result Bytes Error
written = map_ok concat

written-packed : (r : Result Bytes Error) → written (packed r) ≡ r
unfolding packed
written-packed (ok w) = rw append-nil
written-packed (err e) = refl

header_split :
    (hdr : Result Bytes Error) (payload : Bytes)
    → written (hdr >>= λ h. ok (h ∷ payload ∷ [])) ≡ (hdr >>= λ h. ok (h ++ payload))
header_split (ok h) payload = rw append-nil
header_split (err e) payload = refl

written-write_raw : (k : ℕ) (payload : Bytes) → written (write_raw k payload) ≡ encode_raw k payload
unfolding write_raw encode_raw
written-write_raw k payload = header_split (frame_header k (length payload)) payload

large_or_packed :
    (large : Bool) (k : ℕ) (d : Bytes) (e : Result Bytes Error)
    → e ≡ encode_raw k d
    → written (if large then write_raw k d else packed e) ≡ e
large_or_packed true k d e h = written-write_raw k d ∙ sym h
large_or_packed false k d e h = written-packed e

-- For every event frame, small or large, the bytes that `write_event_frame` writes are those of
-- `encode_event_frame`, and it fails exactly where that fails, with the same error.
pub write_event_frame-encode :
    (j : EventJson) (f : EventFrame) → written (write_event_frame j f) ≡ encode_event_frame j f
unfolding write_event_frame encode_event_frame
write_event_frame-encode j (stdout d) = large_or_packed _ (event_byte EventKind.stdout) d _ refl
write_event_frame-encode j (stderr d) = large_or_packed _ (event_byte EventKind.stderr) d _ refl
write_event_frame-encode j (exit r) = written-packed _
write_event_frame-encode j (pong p) = written-packed _

-- The same for the frames of the initiator.
pub write_exec_frame-encode :
    {E : Type 0} (j : ExecJson E) (f : ExecFrame E)
    → written (write_exec_frame j f) ≡ encode_exec_frame j f
unfolding write_exec_frame encode_exec_frame
write_exec_frame-encode j (stdin_data d) =
    large_or_packed _ (exec_byte ExecKind.stdin_data) d _ refl
write_exec_frame-encode j (exec e) = written-packed _
write_exec_frame-encode j stdin_eof = written-packed _
write_exec_frame-encode j (signal s) = written-packed _
write_exec_frame-encode j ping = written-packed _
