-- ===== src/Remote/ServeLog.antt =====
-- `ServeLog` of src/remote.rs: the standard error of sp-serve as lines of the daemon's log.
pub mod Lines
use shell_proxy.Prelude.{
  ℕ, List, [], ◌∷◌, ◌++◌, map, Bool, true, false, Text, is_empty, trim_end, ◌==◌, if◌then◌else◌,
  from_utf8_lossy,
}
use shell_proxy.Proto.Frame.{Bytes}

-- The buffer, with the lines written so far.
pub record ServeLog : Type 0 where
  pub buf : Text
  pub written : List Text

abbrev pub empty_log : ServeLog
empty_log = record { buf = []; written = [] }

-- `c` in front of drained lines and what is left.
abbrev pub attach : ℕ → List Text × Text → List Text × Text
attach c ([], rest) = ([], c ∷ rest)
attach c (l ∷ ls, rest) = ((c ∷ l) ∷ ls, rest)

-- The loop that drains the buffer up to every line feed: the lines, with their ends, and the rest.
unfoldable pub drain : Text → List Text × Text
drain [] = ([], [])
drain (c ∷ s) =
    let (ls, rest) = drain s in if c == 10 then ((c ∷ []) ∷ ls, rest) else attach c (ls, rest)

unfoldable pub feed : ServeLog → Bytes → ServeLog
unfolding drain trim_end from_utf8_lossy
feed g bytes =
    let (ls, rest) = drain (g.buf ++ from_utf8_lossy bytes) in
    record { buf = rest; written = g.written ++ map trim_end ls }

unfoldable pub flush : ServeLog → ServeLog
unfolding trim_end
flush g =
    if is_empty g.buf then g else record { buf = []; written = g.written ++ trim_end g.buf ∷ [] }
