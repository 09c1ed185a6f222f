-- ===== src/Proto/Frame/Header.antt =====
-- The frame header of crates/sp-proto/src/lib.rs: what `encode_raw` writes in front of a payload.
use shell_proxy.Prelude.{
  ℕ, ◌/◌, ◌%◌, ◌<◌, ◌≡◌, refl, sym, ap, ◌∷◌, ◌++◌, arith, ltb, ltb→lt, lt→ltb, Bool-cases, inl, inr,
  length, ok, map_ok, >>=-eq-ok, Result-cases,
}
use shell_proxy.Proto.Frame.{
  Bytes, ExecKind, EventKind, exec_byte, event_byte, exec_kind, event_kind, ExecFrame, exec,
  stdin_data, stdin_eof, signal, ping, EventFrame, stdout, stderr, exit, pong, Json, ReadsBack,
  EventJson, ExecJson, to_le_bytes, from_le_bytes, encode_raw, json, to_vec, decode_event,
  event_parts, encode_event_frame, decode_exec, exec_parts, encode_exec_frame,
}

-- The bytes of one frame.
abbrev pub wire : ℕ → Bytes → Bytes
wire kind payload = kind ∷ (to_le_bytes (length payload) ++ payload)

pub from-to_le_bytes :
    (n : ℕ)
    → n < 4294967296
    → from_le_bytes (n % 256) (n / 256 % 256) (n / 65536 % 256) (n / 16777216 % 256) ≡ n
from-to_le_bytes n h = omega arith

pub encode_raw_ok :
    (kind : ℕ) (payload w : Bytes)
    → encode_raw kind payload ≡ ok w
    → (w ≡ wire kind payload) × (length payload < 4294967296)
unfolding encode_raw
encode_raw_ok kind payload w h = elim (Bool-cases (ltb (length payload) 4294967296)) [
  | inl fits ↦ (cc (rw fits at h), ltb→lt _ _ fits)
  | inr over ↦ cc (rw over at h)
]

pub event_kind-event_byte : (k : EventKind) → event_kind (event_byte k) ≡ ok k
unfolding event_kind
event_kind-event_byte EventKind.stdout = refl
event_kind-event_byte EventKind.stderr = refl
event_kind-event_byte EventKind.exit = refl
event_kind-event_byte EventKind.pong = refl

pub exec_kind-exec_byte : (k : ExecKind) → exec_kind (exec_byte k) ≡ ok k
unfolding exec_kind
exec_kind-exec_byte ExecKind.exec = refl
exec_kind-exec_byte ExecKind.stdin_data = refl
exec_kind-exec_byte ExecKind.stdin_eof = refl
exec_kind-exec_byte ExecKind.signal = refl
exec_kind-exec_byte ExecKind.ping = refl

-- JSON that was written is read back behind its constructor.
json-to_vec :
    {A B : Type 0} (j : Json A) (wrap : A → B) (a : A) (b : Bytes)
    → ReadsBack j
    → to_vec j a ≡ ok b
    → json j wrap b ≡ ok (wrap a)
unfolding json to_vec
json-to_vec j wrap a b back h = elim (Result-cases (j.to_vec a)) [
  | inl (b', e) ↦ let same : b' ≡ b = cc (rw e at h) in rw (back a b (rw same at e))
  | inr (x, e) ↦ cc (rw e at h)
]

json_part :
    {A B : Type 0} (j : Json A) (wrap : A → B) (a : A) (n k : ℕ) (b : Bytes)
    → ReadsBack j
    → map_ok {B = ℕ × Bytes} (λ x. (n, x)) (to_vec j a) ≡ ok (k, b)
    → (k ≡ n) × (json j wrap b ≡ ok (wrap a))
json_part j wrap a n k b back h = elim (Result-cases (to_vec j a)) [
  | inl (b', e) ↦
      let pair : (n, b') ≡ (k, b) = cc (rw e at h) in
      let same : b' ≡ b = ap (λ (q : ℕ × Bytes). q.1) pair in
      (sym (ap (λ (q : ℕ × Bytes). q.0) pair), json-to_vec j wrap a b back (rw same at e))
  | inr (x, e) ↦ cc (rw e at h)
]

-- What a frame that was encoded consists of, for both directions.
abbrev pub IsEventWire : EventJson → EventFrame → Bytes → Type 0
IsEventWire j frame w =
    (kind : EventKind) × (payload : Bytes) × (w ≡ wire (event_byte kind) payload)
    × (length payload < 4294967296)
    × (decode_event j kind payload ≡ ok frame)

abbrev pub IsExecWire : {E : Type 0} → ExecJson E → ExecFrame E → Bytes → Type 0
IsExecWire j frame w =
    (kind : ExecKind) × (payload : Bytes) × (w ≡ wire (exec_byte kind) payload)
    × (length payload < 4294967296)
    × (decode_exec j kind payload ≡ ok frame)

event_parts_ok :
    (j : EventJson) (frame : EventFrame) (k : ℕ) (b : Bytes)
    → ReadsBack j.report
    → ReadsBack j.pong
    → event_parts j frame ≡ ok (k, b)
    → (kind : EventKind) × (k ≡ event_byte kind) × (decode_event j kind b ≡ ok frame)
unfolding event_parts decode_event
event_parts_ok j (stdout d) k b r p h = (EventKind.stdout, ground arith, ground arith)
event_parts_ok j (stderr d) k b r p h = (EventKind.stderr, ground arith, ground arith)
event_parts_ok j (exit x) k b r p h =
    let (kind, back) = json_part j.report exit x _ k b r h in (EventKind.exit, kind, back)
event_parts_ok j (pong x) k b r p h =
    let (kind, back) = json_part j.pong pong x _ k b p h in (EventKind.pong, kind, back)

exec_parts_ok :
    {E : Type 0} (j : ExecJson E) (frame : ExecFrame E) (k : ℕ) (b : Bytes)
    → ReadsBack j.request
    → ReadsBack j.signal
    → exec_parts j frame ≡ ok (k, b)
    → (kind : ExecKind) × (k ≡ exec_byte kind) × (decode_exec j kind b ≡ ok frame)
unfolding exec_parts decode_exec
exec_parts_ok j (exec x) k b r p h =
    let (kind, back) = json_part j.request exec x _ k b r h in (ExecKind.exec, kind, back)
exec_parts_ok j (stdin_data d) k b r p h = (ExecKind.stdin_data, ground arith, ground arith)
exec_parts_ok j stdin_eof k b r p h = (ExecKind.stdin_eof, ground arith, ground arith)
exec_parts_ok j (signal x) k b r p h =
    let (kind, back) = json_part j.signal signal x _ k b p h in (ExecKind.signal, kind, back)
exec_parts_ok j ping k b r p h = (ExecKind.ping, ground arith, ground arith)

pub encode_event_frame-IsEventWire :
    (j : EventJson) (frame : EventFrame) (w : Bytes)
    → ReadsBack j.report
    → ReadsBack j.pong
    → encode_event_frame j frame ≡ ok w
    → IsEventWire j frame w
unfolding encode_event_frame
encode_event_frame-IsEventWire j frame w r p h =
    let ((k, b), parts, raw) = >>=-eq-ok (event_parts j frame) _ h in
    let (kind, same, back) = event_parts_ok j frame k b r p parts in
    let (whole, fits) = encode_raw_ok k b w raw in (kind, b, rw same at whole, fits, back)

pub encode_exec_frame-IsExecWire :
    {E : Type 0} (j : ExecJson E) (frame : ExecFrame E) (w : Bytes)
    → ReadsBack j.request
    → ReadsBack j.signal
    → encode_exec_frame j frame ≡ ok w
    → IsExecWire j frame w
unfolding encode_exec_frame
encode_exec_frame-IsExecWire j frame w r p h =
    let ((k, b), parts, raw) = >>=-eq-ok (exec_parts j frame) _ h in
    let (kind, same, back) = exec_parts_ok j frame k b r p parts in
    let (whole, fits) = encode_raw_ok k b w raw in (kind, b, rw same at whole, fits, back)

pub encode_stdout :
    (j : EventJson) (d : Bytes)
    → length d < 4294967296
    → encode_event_frame j (stdout d) ≡ ok (wire (event_byte EventKind.stdout) d)
unfolding encode_event_frame
encode_stdout j d h = rw (lt→ltb (length d) 4294967296 h)
