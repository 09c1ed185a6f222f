-- ===== src/Mcp/Tests.antt =====
-- The tools of src/mcp.rs at concrete inputs.
use shell_proxy.Prelude.{ℕ, ◌≡◌, refl, [], Option, none, some, ok, err, Text, pos, codes, false}
use shell_proxy.Proto.Session.{is_allowed, parse}
use shell_proxy.Client.Run.{RunReport}
use shell_proxy.Config.{no_host, timeout_too_large}
use shell_proxy.Mcp.{
  Settings, bad_timeout, ExecParams, success, failure, Client, exec_request, exec, read_file,
}
use shell_proxy.Mcp.Format.{DroppedBytes, clip_at, file_result, format_report}
use shell_proxy.Mcp.Requests.{IsChecked, exec_request-IsChecked}
use shell_proxy.Mcp.Notices.{IsNotified, IsTold, texts-IsNotified}

abbrev settings : Settings
settings = record { env_host = some (codes "h"); config_host = err no_host; env_session = none }

abbrev params : Option ℕ → ExecParams
params ms = record {
  command = codes "ls";
  cwd = none;
  timeout_ms = ms;
  host = none;
  session = some (codes "s");
}

abbrev report : ℕ → RunReport
report n = record { code = pos n; cwd = some (codes "/"); timed_out = false; error = none }

abbrev lost : DroppedBytes
lost = record { stdout = 12; stderr = 0 }

-- `ok` without a line end, and twelve bytes that were dropped.
abbrev client : ℕ → Client
client n req stdin =
    ok record { report = report n; stdout = codes "ok"; stderr = []; dropped = lost }

sample_exec :
    exec (client 0) settings (params none)
    ≡ ok (
        success (
          codes
            "exit_code: 0\n--- stdout ---\nok\n--- stderr ---\ncwd: /\n[dropped 12 bytes of stdout]\n"))
unfolding exec is_allowed parse
sample_exec = refl

-- The text of a failed read ends no line in front of the second heading.
heading_in_line :
    read_file (client 1) settings (record { path = codes "f"; host = none; session = none })
    ≡ ok (
        failure
          (codes "exit_code: 1\n--- stdout ---\nok--- stderr ---\n[dropped 12 bytes of stdout]\n"))
unfolding read_file is_allowed parse
heading_in_line = refl

too_long :
    exec (client 0) settings (params (some 86400001))
    ≡ err (bad_timeout (timeout_too_large 86400001))
unfolding exec is_allowed parse
too_long = refl

clipped : clip_at 3 (codes "abcd") ≡ codes "abc\n...[truncated, 4 bytes total]\n"
unfolding clip_at
clipped = refl

exec_request-IsChecked_example : IsChecked (params none) (record {
  host = codes "h";
  command = codes "ls";
  args = [];
  cwd = none;
  timeout_ms = some 600000;
  session = some (codes "s");
})
unfolding exec_request is_allowed parse
exec_request-IsChecked_example = exec_request-IsChecked settings (params none) _ refl

abbrev failed_text : Text
failed_text = codes "exit_code: 1\n--- stdout ---\nok--- stderr ---\n[dropped 12 bytes of stdout]\n"

texts-IsNotified_example :
    IsNotified lost (format_report (report 1) (codes "ok") [] lost) × IsTold none lost failed_text
unfolding file_result
texts-IsNotified_example = texts-IsNotified (report 1) (codes "ok") [] lost failed_text refl
