-- ===== src/Proto/Tests.antt =====
-- Concrete runs of the protocol of crates/sp-proto, and its theorems at concrete inputs.
use shell_proxy.Prelude.{
  ℕ, zero, suc, ◌≡◌, ◌↔◌, refl, Bool, true, false, List, [], ◌∷◌, Option, none, some, arith, concat,
  length, replicate, length-replicate, Result, ok, err, ℤ, pos, negsuc, Text, codes,
}
use shell_proxy.Proto.Frame.{
  Bytes, protocol, Signal, int, term, kill, hup, ExitReport, Pong, exec, EventFrame, stdout, exit,
  Json, ReadsBack, EventJson, ExecJson, encode_event_frame, event_kind, decode_event,
  encode_exec_frame,
}
use shell_proxy.Proto.Frame.Header.{wire}
use shell_proxy.Proto.Decoder.{new, push}
use shell_proxy.Proto.Decoder.Chunks.{feed, feed-concat}
use shell_proxy.Proto.Decoder.RoundTrip.{Encodes, feed-encode}
use shell_proxy.Proto.Stream.{
  chunk, Reader, error, read_event_frame, read_exec_frame, read_frame_as,
}
use shell_proxy.Proto.Stream.Fill.{contents}
use shell_proxy.Proto.Stream.Reference.{Agrees, first_frame, read_frame_as-Agrees}
use shell_proxy.Proto.Stream.RoundTrip.{Delivers, read_event_frame-encode, read_exec_frame-encode}
use shell_proxy.Proto.Stream.Cut.{cut_message, read_event_frame_cut}
use shell_proxy.Proto.Utf8.{truncate_utf8}
use shell_proxy.Proto.Utf8.Cut.{IsLongestPrefix, truncate_utf8_longest}
use shell_proxy.Proto.Session.{bad_char, SessionId, parse, is_allowed, default, default_name}
use shell_proxy.Proto.Session.Charset.{IsName, parse_ok_iff}

-- A small stand-in for JSON: reports without texts, process ids, and signals.
abbrev pub write_report : ℤ → Option Text → Option Text → Bool → Result Bytes Text
write_report (pos n) none none true = ok (n ∷ 1 ∷ [])
write_report (pos n) none none false = ok (n ∷ 0 ∷ [])
write_report _ _ _ _ = err []

abbrev pub plain_report : ℕ → Bool → ExitReport
plain_report n b = record { code = pos n; cwd = none; error = none; timed_out = b }

abbrev pub read_report : Bytes → Result ExitReport Text
read_report (n ∷ zero ∷ []) = ok (plain_report n false)
read_report (n ∷ suc zero ∷ []) = ok (plain_report n true)
read_report _ = err []

abbrev pub report_json : Json ExitReport
report_json = record {
  to_vec = λ r. write_report r.code r.cwd r.error r.timed_out;
  from_slice = read_report;
}

report_back :
    (c : ℤ) (d e : Option Text) (o : Bool) (b : Bytes)
    → write_report c d e o ≡ ok b
    → read_report b ≡ ok (record { code = c; cwd = d; error = e; timed_out = o })
report_back (pos n) none none true b h = let s : n ∷ 1 ∷ [] ≡ b = cc in rw (← s)
report_back (pos n) none none false b h = let s : n ∷ 0 ∷ [] ≡ b = cc in rw (← s)
report_back (pos n) none (some e) o b h = cc
report_back (pos n) (some d) e o b h = cc
report_back (negsuc n) d e o b h = cc

abbrev pub read_pong : Bytes → Result Pong Text
read_pong (n ∷ []) = ok (record { pid = n })
read_pong _ = err []

abbrev pub pong_json : Json Pong
pong_json = record { to_vec = λ p. ok (p.pid ∷ []); from_slice = read_pong }

abbrev pub events : EventJson
events = record { report = report_json; pong = pong_json }

pub report-ReadsBack : ReadsBack report_json
report-ReadsBack r b h = report_back r.code r.cwd r.error r.timed_out b h

pub pong-ReadsBack : ReadsBack pong_json
pong-ReadsBack p b h = let s : p.pid ∷ [] ≡ b = cc in rw (← s)

-- Requests are their own text here, and signals a byte.
abbrev text_json : Json Text
text_json = record { to_vec = ok; from_slice = ok }

text-ReadsBack : ReadsBack text_json
text-ReadsBack a b h = cc

abbrev signal_byte : Signal → ℕ
signal_byte int = 0
signal_byte term = 1
signal_byte kill = 2
signal_byte hup = 3

abbrev read_signal : Bytes → Result Signal Text
read_signal (zero ∷ []) = ok int
read_signal (suc zero ∷ []) = ok term
read_signal (suc (suc zero) ∷ []) = ok kill
read_signal (suc (suc (suc zero)) ∷ []) = ok hup
read_signal _ = err []

abbrev signal_json : Json Signal
signal_json = record { to_vec = λ s. ok (signal_byte s ∷ []); from_slice = read_signal }

signal-ReadsBack : ReadsBack signal_json
signal-ReadsBack int b h = let s : 0 ∷ [] ≡ b = cc in rw (← s)
signal-ReadsBack term b h = let s : 1 ∷ [] ≡ b = cc in rw (← s)
signal-ReadsBack kill b h = let s : 2 ∷ [] ≡ b = cc in rw (← s)
signal-ReadsBack hup b h = let s : 3 ∷ [] ≡ b = cc in rw (← s)

abbrev requests : ExecJson Text
requests = record { request = text_json; signal = signal_json }

-- Two frames, their bytes, and the bytes in three chunks.
abbrev pub two_frames : List EventFrame
two_frames = stdout (104 ∷ 105 ∷ []) ∷ exit (plain_report 130 true) ∷ []

abbrev pub two_wires : List Bytes
two_wires = (0x81 ∷ 2 ∷ 0 ∷ 0 ∷ 0 ∷ 104 ∷ 105 ∷ []) ∷ (0x83 ∷ 2 ∷ 0 ∷ 0 ∷ 0 ∷ 130 ∷ 1 ∷ []) ∷ []

abbrev pub three_chunks : List Bytes
three_chunks =
    (0x81 ∷ 2 ∷ []) ∷ (0 ∷ 0 ∷ 0 ∷ 104 ∷ 105 ∷ 0x83 ∷ []) ∷ (2 ∷ 0 ∷ 0 ∷ 0 ∷ 130 ∷ 1 ∷ []) ∷ []

pub two_encoded : Encodes events two_frames two_wires
unfolding encode_event_frame
two_encoded = (refl, omega arith, (refl, omega arith, tt))

feed-encode_example : feed events new three_chunks ≡ ok two_frames
feed-encode_example =
    feed-encode events two_frames two_wires three_chunks report-ReadsBack pong-ReadsBack two_encoded
      refl

feed-concat_example : feed events new three_chunks ≡ (push events new (concat three_chunks)).1
feed-concat_example = feed-concat events three_chunks

-- The first frame in two pieces, with the start of another behind it.
abbrev split_reader : Reader
split_reader = chunk (0x81 ∷ 2 ∷ 0 ∷ []) ∷ chunk (0 ∷ 0 ∷ 104 ∷ 105 ∷ 9 ∷ []) ∷ []

read_frame_as-Agrees_example :
    Agrees
      (read_frame_as event_kind (decode_event events) split_reader)
      (first_frame event_kind (decode_event events) (contents split_reader))
read_frame_as-Agrees_example =
    read_frame_as-Agrees event_kind (decode_event events) split_reader (omega arith)

read_event_frame-encode_example :
    Delivers (read_event_frame events split_reader) (stdout (104 ∷ 105 ∷ [])) (9 ∷ [])
read_event_frame-encode_example =
    read_event_frame-encode events (stdout (104 ∷ 105 ∷ [])) (0x81 ∷ 2 ∷ 0 ∷ 0 ∷ 0 ∷ 104 ∷ 105 ∷ [])
      (9 ∷ []) split_reader report-ReadsBack pong-ReadsBack two_encoded.0 (omega arith)
      (omega arith) refl

request_encoded :
    encode_exec_frame requests (exec (108 ∷ 115 ∷ [])) ≡ ok (1 ∷ 2 ∷ 0 ∷ 0 ∷ 0 ∷ 108 ∷ 115 ∷ [])
unfolding encode_exec_frame
request_encoded = refl

read_exec_frame-encode_example :
    Delivers
      (read_exec_frame requests (chunk (1 ∷ 2 ∷ 0 ∷ 0 ∷ 0 ∷ 108 ∷ []) ∷ chunk (115 ∷ []) ∷ []))
      (exec (108 ∷ 115 ∷ []))
      []
read_exec_frame-encode_example =
    read_exec_frame-encode requests (exec (108 ∷ 115 ∷ [])) (1 ∷ 2 ∷ 0 ∷ 0 ∷ 0 ∷ 108 ∷ 115 ∷ []) []
      (chunk (1 ∷ 2 ∷ 0 ∷ 0 ∷ 0 ∷ 108 ∷ []) ∷ chunk (115 ∷ []) ∷ []) text-ReadsBack signal-ReadsBack
      request_encoded (omega arith) (omega arith) refl

read_event_frame_cut_example :
    read_event_frame events (chunk (0x81 ∷ 2 ∷ []) ∷ chunk (0 ∷ 0 ∷ 0 ∷ 104 ∷ []) ∷ [])
    ≡ error (protocol (cut_message 6 7))
read_event_frame_cut_example =
    read_event_frame_cut events (stdout (104 ∷ 105 ∷ [])) (0x81 ∷ 2 ∷ 0 ∷ 0 ∷ 0 ∷ 104 ∷ 105 ∷ [])
      (0x81 ∷ 2 ∷ 0 ∷ 0 ∷ 0 ∷ 104 ∷ []) [] 105
      (chunk (0x81 ∷ 2 ∷ []) ∷ chunk (0 ∷ 0 ∷ 0 ∷ 104 ∷ []) ∷ []) report-ReadsBack pong-ReadsBack
      two_encoded.0 (omega arith) refl (λ e. cc) (omega arith) refl

-- Standard output of 16 MiB and a byte.
abbrev big_output : Bytes
big_output = replicate 16777217 0

big_length : length big_output ≡ 16777217
big_length = length-replicate 16777217 0

abbrev big_wire : Bytes
big_wire = wire 0x81 big_output

truncate_utf8_longest_example :
    (t : Text) × (truncate_utf8 (97 ∷ 98 ∷ 0x4f60 ∷ 99 ∷ []) 4 ≡ some t)
    × IsLongestPrefix (97 ∷ 98 ∷ 0x4f60 ∷ 99 ∷ []) 4 t
truncate_utf8_longest_example = truncate_utf8_longest (97 ∷ 98 ∷ 0x4f60 ∷ 99 ∷ []) 4

-- The unit test `truncate_utf8_cuts_on_char_boundaries` of the source.
truncate_mid_char : truncate_utf8 (97 ∷ 98 ∷ 0x4f60 ∷ 99 ∷ 100 ∷ []) 4 ≡ some (97 ∷ 98 ∷ [])
unfolding truncate_utf8
truncate_mid_char = refl

truncate_whole_char :
    truncate_utf8 (97 ∷ 98 ∷ 0x4f60 ∷ 99 ∷ 100 ∷ []) 5 ≡ some (97 ∷ 98 ∷ 0x4f60 ∷ [])
unfolding truncate_utf8
truncate_whole_char = refl

-- The unit test `default_name_stays_valid`.
default_name_stays_valid : parse default_name ≡ ok default
unfolding parse is_allowed default
default_name_stays_valid = refl

rejects_slash : parse (codes "a/b") ≡ err (bad_char b'/')
unfolding parse is_allowed
rejects_slash = refl

parse_ok_iff_example :
    (parse (codes "agent-1") ≡ ok (record { name = codes "agent-1" }))
    ↔ ◌≡◌ {A = SessionId} (record { name = codes "agent-1" }) (record { name = codes "agent-1" })
      × IsName (codes "agent-1")
parse_ok_iff_example = parse_ok_iff (codes "agent-1") (record { name = codes "agent-1" })
