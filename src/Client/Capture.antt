-- ===== src/Client/Capture.antt =====
-- The bounded capture of src/client.rs: `append_capped` and `CappedSink`.
pub mod Prefix
use shell_proxy.Prelude.{
  ℕ, ◌+◌, ◌-◌, ◌*◌, ◌%◌, ◌^◌, ◌≡◌, List, [], ◌∷◌, ◌++◌, leb, if◌then◌else◌, length, take,
}
use shell_proxy.Proto.Frame.{Bytes}

abbrev pub capture_cap : ℕ
capture_cap = 512 * 1024

-- The buffer behind the call, and the number of dropped bytes.
unfoldable pub append_capped : Bytes → ℕ → Bytes → Bytes × ℕ
append_capped buf cap chunk =
    let room = cap - length buf in
    if leb (length chunk) room
    then (buf ++ chunk, 0)
    else (buf ++ take room chunk, length chunk - room)

pub record CappedSink : Type 0 where
  pub buf : Bytes
  pub dropped : ℕ

abbrev pub empty_sink : CappedSink
empty_sink = record { buf = []; dropped = 0 }

-- `poll_write`: the sink behind it, and how much was consumed. The counter is a `u64`.
unfoldable pub poll_write : CappedSink → Bytes → CappedSink × ℕ
unfolding append_capped
poll_write s chunk =
    let (buf, lost) = append_capped s.buf capture_cap chunk in
    (record { buf = buf; dropped = (s.dropped + lost) % 2 ^ 64 }, length chunk)

-- The writes of `run`, each of which is consumed whole.
unfoldable pub write_chunks : CappedSink → List Bytes → CappedSink
unfolding poll_write
write_chunks s [] = s
write_chunks s (c ∷ cs) = write_chunks (poll_write s c).0 cs
