-- ===== src/Mcp/Format.antt =====
-- The texts of tool results: `clip`, `push_dropped`, `file_result` and `format_report` of src/mcp.rs.
use shell_proxy.Prelude.{
  ℕ, suc, ◌*◌, ◌==◌, Bool, true, false, not, ◌&&◌, [], ◌∷◌, ◌++◌, Option, none, some, Text, ℤ, pos,
  negsuc, codes, length, take, from_utf8_lossy, if◌then◌else◌, ltb, leb,
}
use shell_proxy.Proto.Frame.{Bytes}
use shell_proxy.Client.Run.{RunReport}
use shell_proxy.SshConfig.Tokens.{decimal_from}
use shell_proxy.SshConfig.Values.{ends_in}

pub record DroppedBytes : Type 0 where
  pub stdout : ℕ
  pub stderr : ℕ

abbrev pub max_tool_output : ℕ
max_tool_output = 64 * 1024

-- `{}` of a `u64` and of an `i32`.
unfoldable pub decimal_64 : ℕ → Text
unfolding decimal_from
decimal_64 = decimal_from 19

unfoldable pub decimal_code : ℤ → Text
unfolding decimal_64
decimal_code (pos n) = decimal_64 n
decimal_code (negsuc n) = b'-' ∷ decimal_64 (suc n)

unfoldable pub is_zero : ℤ → Bool
is_zero (pos n) = n == 0
is_zero (negsuc n) = false

abbrev pub newline : ℕ
newline = 10

-- `writeln!`
abbrev pub line : Text → Text
line s = s ++ newline ∷ []

-- `if !s.ends_with('\n') { s.push('\n') }`
abbrev pub end_line : Text → Text
end_line s = if ends_in newline s then s else line s

-- With the cap as an argument.
unfoldable pub clip_at : ℕ → Bytes → Text
unfolding from_utf8_lossy decimal_64
clip_at cap bytes =
    if leb (length bytes) cap
    then from_utf8_lossy bytes
    else end_line (from_utf8_lossy (take cap bytes))
      ++ line (codes "...[truncated, " ++ decimal_64 (length bytes) ++ codes " bytes total]")

unfoldable pub clip : Bytes → Text
unfolding clip_at
clip = clip_at max_tool_output

abbrev pub notice : ℕ → Text → Text
notice n what =
    if ltb 0 n
    then line (codes "[dropped " ++ decimal_64 n ++ codes " bytes of " ++ what ++ codes "]")
    else []

abbrev pub is_blank : Text → Bool
is_blank [] = true
is_blank (c ∷ s) = false

unfoldable pub push_dropped : Text → DroppedBytes → Text
unfolding decimal_64
push_dropped out d =
    if (d.stdout == 0) && (d.stderr == 0)
    then out
    else (if not (is_blank out) && not (ends_in newline out) then line out else out)
      ++ (notice d.stdout (codes "stdout") ++ notice d.stderr (codes "stderr"))

abbrev pub failed_text : RunReport → Bytes → Bytes → Text
failed_text r stdout stderr =
    codes "exit_code: "
    ++ decimal_code r.code
    ++ codes "\n--- stdout ---\n"
    ++ clip stdout
    ++ codes "--- stderr ---\n"
    ++ clip stderr

unfoldable pub file_error : RunReport → Option Text → Bytes → Bytes → DroppedBytes → Option Text
unfolding is_zero decimal_code clip push_dropped
file_error r (some e) stdout stderr d = some (codes "error: " ++ e)
file_error r none stdout stderr d =
    if is_zero r.code then none else some (push_dropped (failed_text r stdout stderr) d)

unfoldable pub file_result : RunReport → Bytes → Bytes → DroppedBytes → Option Text
unfolding file_error
file_result r stdout stderr d = file_error r r.error stdout stderr d

abbrev pub if_some : Option Text → Text → Text
if_some none what = []
if_some (some e) what = line (what ++ e)

-- A stream with its heading, behind `out`; a stream that is not empty ends its line.
abbrev pub section : Text → Text → Bytes → Text
section out heading bytes =
    let text = out ++ line heading ++ clip bytes in
    if not (leb (length bytes) 0) && not (ends_in newline text) then line text else text

abbrev pub head_of : RunReport → Text
head_of r =
    line (codes "exit_code: " ++ decimal_code r.code)
    ++ if_some r.error (codes "error: ")
    ++ (if r.timed_out then line (codes "timed_out: true") else [])

unfoldable pub format_report : RunReport → Bytes → Bytes → DroppedBytes → Text
unfolding decimal_code clip push_dropped
format_report r stdout stderr d =
    push_dropped
      (section (section (head_of r) (codes "--- stdout ---") stdout) (codes "--- stderr ---") stderr
        ++ if_some r.cwd (codes "cwd: "))
      d
