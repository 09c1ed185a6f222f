-- ===== src/Proto/Frame.antt =====
-- crates/sp-proto/src/lib.rs: signals, requests, reports, frames and their encoding. A byte is a
-- number below 256 and a payload a list of bytes. JSON is a parameter: serde_json is not modelled.
pub mod Header
use shell_proxy.Prelude.{
  ℕ, ◌+◌, ◌*◌, ◌/◌, ◌%◌, ◌<◌, ◌≡◌, Bool, List, [], ◌∷◌, ◌++◌, Option, none, some, ltb, leb, ◌==◌,
  if◌then◌else◌, length, Result, ok, err, ◌>>=◌, map_ok, map_err, ℤ, pos, Text,
}

abbrev pub Bytes : Type 0
Bytes = List ℕ

abbrev pub internal_error_code : ℤ
internal_error_code = pos 254

abbrev pub timeout_exit_code : ℤ
timeout_exit_code = pos 124

-- The texts of `Error::Protocol`, each format string with its arguments.
pub data Message : Type 0 where
  bad_exec_kind : ℕ → Message
  bad_event_kind : ℕ → Message
  frame_too_large : ℕ → Message
  partial_header : ℕ → Message
  partial_payload : ℕ → ℕ → Message
  bad_frame_payload : Text → Message

-- `enum Error`; an io or JSON error is its text.
pub data Error : Type 0 where
  io : Text → Error
  json_error : Text → Error
  protocol : Message → Error

pub data Signal : Type 0 where
  int term kill hup : Signal

pub record ExecRequest : Type 0 where
  pub host : Text
  pub command : Text
  pub args : List Text
  pub cwd : Option Text
  pub timeout_ms : Option ℕ
  pub session : Option Text

pub record ServeExec : Type 0 where
  pub session : Text
  pub command : Text
  pub args : List Text
  pub cwd : Option Text
  pub timeout_ms : Option ℕ

pub record ExitReport : Type 0 where
  pub code : ℤ
  pub cwd : Option Text
  pub error : Option Text
  pub timed_out : Bool

pub record Pong : Type 0 where
  pub pid : ℕ

pub data ExecKind : Type 0 where
  exec stdin_data stdin_eof signal ping : ExecKind

pub data EventKind : Type 0 where
  stdout stderr exit pong : EventKind

-- `kind as u8`.
abbrev pub exec_byte : ExecKind → ℕ
exec_byte ExecKind.exec = 1
exec_byte ExecKind.stdin_data = 2
exec_byte ExecKind.stdin_eof = 3
exec_byte ExecKind.signal = 4
exec_byte ExecKind.ping = 5

abbrev pub event_byte : EventKind → ℕ
event_byte EventKind.stdout = 0x81
event_byte EventKind.stderr = 0x82
event_byte EventKind.exit = 0x83
event_byte EventKind.pong = 0x84

-- `TryFrom<u8>`.
pub exec_kind : ℕ → Result ExecKind Error
exec_kind v =
    if v == 1
    then ok ExecKind.exec
    else if v == 2
    then ok ExecKind.stdin_data
    else if v == 3
    then ok ExecKind.stdin_eof
    else if v == 4
    then ok ExecKind.signal
    else if v == 5
    then ok ExecKind.ping
    else err (protocol (bad_exec_kind v))

pub event_kind : ℕ → Result EventKind Error
event_kind v =
    if v == 0x81
    then ok EventKind.stdout
    else if v == 0x82
    then ok EventKind.stderr
    else if v == 0x83
    then ok EventKind.exit
    else if v == 0x84
    then ok EventKind.pong
    else err (protocol (bad_event_kind v))

pub data ExecFrame (E : Type 0) : Type 0 where
  exec : E → ExecFrame E
  stdin_data : Bytes → ExecFrame E
  stdin_eof : ExecFrame E
  signal : Signal → ExecFrame E
  ping : ExecFrame E

pub data EventFrame : Type 0 where
  stdout : Bytes → EventFrame
  stderr : Bytes → EventFrame
  exit : ExitReport → EventFrame
  pong : Pong → EventFrame

-- `serde_json::to_vec` and `serde_json::from_slice` at one type.
pub record Json (A : Type 0) : Type 0 where
  pub to_vec : A → Result Bytes Text
  pub from_slice : Bytes → Result A Text

-- What the program relies on: a value that was written is read back.
abbrev pub ReadsBack : {A : Type 0} → Json A → Type 0
ReadsBack {A} j = (a : A) (b : Bytes) → j.to_vec a ≡ ok b → j.from_slice b ≡ ok a

pub record EventJson : Type 0 where
  pub report : Json ExitReport
  pub pong : Json Pong

pub record ExecJson (E : Type 0) : Type 0 where
  pub request : Json E
  pub signal : Json Signal

abbrev pub max_payload : ℕ
max_payload = 16 * 1024 * 1024

-- `u32::to_le_bytes` and `u32::from_le_bytes`.
abbrev pub to_le_bytes : ℕ → Bytes
to_le_bytes n = n % 256 ∷ n / 256 % 256 ∷ n / 65536 % 256 ∷ n / 16777216 % 256 ∷ []

abbrev pub from_le_bytes : ℕ → ℕ → ℕ → ℕ → ℕ
from_le_bytes a b c d = a + 256 * b + 65536 * c + 16777216 * d

unfoldable pub frame_header : ℕ → ℕ → Result Bytes Error
frame_header kind len =
    if ltb len 4294967296 then ok (kind ∷ to_le_bytes len) else err (protocol (frame_too_large len))

unfoldable pub encode_raw : ℕ → Bytes → Result Bytes Error
unfolding frame_header
encode_raw kind payload = do hdr ← frame_header kind (length payload); ok (hdr ++ payload)

-- `json(&payload)?`
pub json {ℓ} : {A : Type 0} {B : Type ℓ} → Json A → (A → B) → Bytes → Result B Error
json j wrap payload =
    map_ok wrap (map_err (λ e. protocol (bad_frame_payload e)) (j.from_slice payload))

-- `serde_json::to_vec(v)?`
pub to_vec : {A : Type 0} → Json A → A → Result Bytes Error
to_vec j a = map_err json_error (j.to_vec a)

module _ (j : EventJson) where
  pub decode_event : EventKind → Bytes → Result EventFrame Error
  unfolding json
  decode_event EventKind.stdout payload = ok (stdout payload)
  decode_event EventKind.stderr payload = ok (stderr payload)
  decode_event EventKind.exit payload = json j.report exit payload
  decode_event EventKind.pong payload = json j.pong pong payload

  -- The payload of `encode_event_frame`, with the kind byte.
  pub event_parts : EventFrame → Result (ℕ × Bytes) Error
  unfolding to_vec
  event_parts (stdout d) = ok (event_byte EventKind.stdout, d)
  event_parts (stderr d) = ok (event_byte EventKind.stderr, d)
  event_parts (exit r) = map_ok (λ b. (event_byte EventKind.exit, b)) (to_vec j.report r)
  event_parts (pong p) = map_ok (λ b. (event_byte EventKind.pong, b)) (to_vec j.pong p)

  unfoldable pub encode_event_frame : EventFrame → Result Bytes Error
  unfolding event_parts encode_raw
  encode_event_frame frame = do (kind, payload) ← event_parts frame; encode_raw kind payload

module _ {E : Type 0} (j : ExecJson E) where
  pub decode_exec : ExecKind → Bytes → Result (ExecFrame E) Error
  unfolding json
  decode_exec ExecKind.exec payload = json j.request exec payload
  decode_exec ExecKind.stdin_data payload = ok (stdin_data payload)
  decode_exec ExecKind.stdin_eof payload = ok stdin_eof
  decode_exec ExecKind.signal payload = json j.signal signal payload
  decode_exec ExecKind.ping payload = ok ping

  pub exec_parts : ExecFrame E → Result (ℕ × Bytes) Error
  unfolding to_vec
  exec_parts (exec req) = map_ok (λ b. (exec_byte ExecKind.exec, b)) (to_vec j.request req)
  exec_parts (stdin_data d) = ok (exec_byte ExecKind.stdin_data, d)
  exec_parts stdin_eof = ok (exec_byte ExecKind.stdin_eof, [])
  exec_parts (signal s) = map_ok (λ b. (exec_byte ExecKind.signal, b)) (to_vec j.signal s)
  exec_parts ping = ok (exec_byte ExecKind.ping, [])

  unfoldable pub encode_exec_frame : ExecFrame E → Result Bytes Error
  unfolding exec_parts encode_raw
  encode_exec_frame frame = do (kind, payload) ← exec_parts frame; encode_raw kind payload
