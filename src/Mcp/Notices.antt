-- ===== src/Mcp/Notices.antt =====
-- The notices of dropped output in the texts of src/mcp.rs.
use shell_proxy.Prelude.{
  ◌≡◌, refl, sym, true, false, Bool-cases, not, ◌&&◌, [], ◌∷◌, ◌++◌, Option, none, some, Text,
  codes, if◌then◌else◌, ltb, ◌==◌, ◌⊎◌, inl, inr, arith, append-nil,
}
use shell_proxy.Proto.Frame.{Bytes}
use shell_proxy.Client.Run.{RunReport}
use shell_proxy.SshConfig.Values.{ends_in}
use shell_proxy.SshConfig.RoundTrip.{ends_in-last}
use shell_proxy.Mcp.Format.{
  DroppedBytes, newline, line, notice, is_blank, is_zero, push_dropped, failed_text, file_error,
  file_result, format_report,
}

-- The lines that tell of dropped bytes.
abbrev pub notices : DroppedBytes → Text
notices d = notice d.stdout (codes "stdout") ++ notice d.stderr (codes "stderr")

-- The notices stand at the end of a text, on lines of their own.
abbrev pub IsNotified : DroppedBytes → Text → Type 0
IsNotified d text =
    (front : Text) × (text ≡ front ++ notices d)
    × ((notices d ≡ []) ⊎ ((front ≡ []) ⊎ (ends_in newline front ≡ true)))

no_notices : (d : DroppedBytes) → ((d.stdout == 0) && (d.stderr == 0)) ≡ true → notices d ≡ []
no_notices d h =
    let e0 : ltb 0 d.stdout ≡ false = ground arith in
    let e1 : ltb 0 d.stderr ≡ false = ground arith in rw (e0, e1) refl

push_dropped-IsNotified : (out : Text) (d : DroppedBytes) → IsNotified d (push_dropped out d)
unfolding push_dropped
push_dropped-IsNotified out d = elim (Bool-cases ((d.stdout == 0) && (d.stderr == 0))) [
  | inl zeros ↦
      rw zeros (out, (rw (no_notices d zeros) (sym (append-nil out))), inl (no_notices d zeros))
  | inr some_lost ↦ rw some_lost (at_line out)
]
  where
    at_line :
        (out : Text)
        → IsNotified d (
            (if not (is_blank out) && not (ends_in newline out) then line out else out)
            ++ notices d)
    at_line [] = ([], refl, inr (inl refl))
    at_line (c ∷ s) = elim (Bool-cases (ends_in newline (c ∷ s))) [
      | inl ended ↦ rw ended (c ∷ s, refl, inr (inr ended))
      | inr open_line ↦ rw open_line (line (c ∷ s), refl, inr (inr (ends_in-last (c ∷ s) newline)))
    ]

-- A failure text: the error of the report alone, or a text with the notices.
abbrev pub IsTold : Option Text → DroppedBytes → Text → Type 0
IsTold error d text =
    ((e : Text) × (error ≡ some e) × (text ≡ codes "error: " ++ e)) ⊎ IsNotified d text

file_error-IsTold :
    (r : RunReport) (e : Option Text) (stdout stderr : Bytes) (d : DroppedBytes) (text : Text)
    → file_error r e stdout stderr d ≡ some text
    → IsTold e d text
file_error-IsTold r (some e) stdout stderr d text same = inl (e, refl, (unfold file_error in cc))
file_error-IsTold r none stdout stderr d text same = elim (Bool-cases (is_zero r.code)) [
  | inl zero_code ↦ let wrong : none ≡ some text = unfold file_error in rw zero_code at same in cc
  | inr failed ↦
      let given : some (push_dropped (failed_text r stdout stderr) d) ≡ some text =
        unfold file_error in rw failed at same in
      let text_is : push_dropped (failed_text r stdout stderr) d ≡ text = cc in
      inr (rw (sym text_is) (push_dropped-IsNotified (failed_text r stdout stderr) d))
]

-- The text of `exec` ends in the notices for all that was dropped, each on a line of its own,
-- however long the outputs are. So does a failure text of the tools for files, unless the report
-- itself has an error: then it is that error alone.
pub texts-IsNotified :
    (r : RunReport) (stdout stderr : Bytes) (d : DroppedBytes) (text : Text)
    → file_result r stdout stderr d ≡ some text
    → IsNotified d (format_report r stdout stderr d) × IsTold r.error d text
unfolding format_report file_result
texts-IsNotified r stdout stderr d text same =
    (push_dropped-IsNotified _ d, file_error-IsTold r r.error stdout stderr d text same)
