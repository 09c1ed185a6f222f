-- ===== src/Mcp.antt =====
-- The tools of src/mcp.rs. The settings, the run of a request by the client and the base64 codec are
-- arguments. A `String` that comes from a caller's content is its bytes.
pub mod Format
pub mod Requests
pub mod Notices
pub mod Size
mod Tests
use shell_proxy.Prelude.{
  ℕ, ◌≡◌, Bool, true, false, ◌||◌, not, List, [], ◌∷◌, ◌++◌, Option, none, some, Result, ok, err,
  ◌>>=◌, map_err, Text, ℤ, pos, codes, length, if◌then◌else◌, ltb, leb,
}
use shell_proxy.Proto.Frame.{Bytes, ExecRequest}
use shell_proxy.Proto.Session.{SessionId}
use shell_proxy.Config.{ConfigError, check_timeout_ms, resolve_host, resolve_session}
use shell_proxy.Client.Run.{RunReport}
use shell_proxy.Client.Quote.{upload_request, download_request}
use shell_proxy.Mcp.Format.{
  DroppedBytes, is_zero, clip, push_dropped, file_result, format_report, decimal_64,
}

abbrev pub default_timeout_ms : ℕ
default_timeout_ms = 600000

-- The environment and the loaded file.
pub record Settings : Type 0 where
  pub env_host : Option Text
  pub config_host : Result (Option Text) ConfigError
  pub env_session : Option Text

pub data McpError : Type 0 where
  empty_host : McpError
  bad_setting : ConfigError → McpError
  bad_timeout : ConfigError → McpError
  bad_base64 : Text → McpError
  internal_error : Text → McpError

pub record ExecParams : Type 0 where
  pub command : Text
  pub cwd : Option Text
  pub timeout_ms : Option ℕ
  pub host : Option Text
  pub session : Option Text

-- The parameters that the file tools share.
pub record FileParams : Type 0 where
  pub path : Text
  pub host : Option Text
  pub session : Option Text

pub data CallToolResult : Type 0 where
  success : Text → CallToolResult
  failure : Text → CallToolResult

-- `client::run_captured_capped`.
pub record Captured : Type 0 where
  pub report : RunReport
  pub stdout : Bytes
  pub stderr : Bytes
  pub dropped : DroppedBytes

abbrev pub Client : Type 0
Client = ExecRequest → Bytes → Result Captured Text

pub record Base64 : Type 0 where
  pub encode : Bytes → Bytes
  pub decode : Bytes → Result Bytes Text

unfoldable pub tool_host : Settings → Option Text → Result Text McpError
unfolding resolve_host
tool_host s (some []) = err empty_host
tool_host s (some (c ∷ h)) =
    map_err bad_setting (resolve_host (some (c ∷ h)) s.env_host s.config_host)
tool_host s none = map_err bad_setting (resolve_host none s.env_host s.config_host)

unfoldable pub tool_session : Settings → Option Text → Result SessionId McpError
unfolding resolve_session
tool_session s cli = map_err bad_setting (resolve_session cli s.env_session)

abbrev pub or_default : Option ℕ → ℕ
or_default none = default_timeout_ms
or_default (some ms) = ms

abbrev pub made : Text → SessionId → ExecParams → ExecRequest
made host session p = record {
  host = host;
  command = p.command;
  args = [];
  cwd = p.cwd;
  timeout_ms = some (or_default p.timeout_ms);
  session = some session.name;
}

-- The request of `exec`.
unfoldable pub exec_request : Settings → ExecParams → Result ExecRequest McpError
unfolding tool_host tool_session check_timeout_ms
exec_request s p = do
  host ← tool_host s p.host
  session ← tool_session s p.session
  u ← map_err bad_timeout (check_timeout_ms (or_default p.timeout_ms))
  ok (made host session p)

abbrev pub FileRequest : Type 0
FileRequest = Text → Text → Text → Option Text → Option ℕ → ExecRequest

-- The request of a tool for files.
unfoldable pub file_request : FileRequest → Settings → FileParams → Result ExecRequest McpError
unfolding tool_host tool_session
file_request make s p = do
  host ← tool_host s p.host
  session ← tool_session s p.session
  ok (make host session.name p.path none (some default_timeout_ms))

module _ (client : Client) where
  abbrev pub call : ExecRequest → Bytes → Result Captured McpError
  call req stdin = map_err internal_error (client req stdin)

  abbrev pub is_failure : RunReport → Bool
  is_failure r =
      not (is_zero r.code) || (elim r.error as (λ _. Bool) [ none ↦ false | some e ↦ true ])

  unfoldable pub exec : Settings → ExecParams → Result CallToolResult McpError
  unfolding exec_request format_report is_zero
  exec s p = do
    req ← exec_request s p
    got ← call req []
    let text = format_report got.report got.stdout got.stderr got.dropped
    ok (if is_failure got.report then failure text else success text)

  abbrev pub or_failure : Option Text → Text → CallToolResult
  or_failure (some e) text = failure e
  or_failure none text = success text

  -- `read_remote`, with the encoding of what was read.
  unfoldable pub read_remote : (Bytes → Bytes) → ExecRequest → Result CallToolResult McpError
  unfolding file_result clip push_dropped
  read_remote encoding req = do
    got ← call req []
    ok (
        or_failure (file_result got.report got.stdout got.stderr got.dropped)
          (push_dropped (clip (encoding got.stdout)) got.dropped))

  unfoldable pub write_remote : ExecRequest → Bytes → Text → Result CallToolResult McpError
  unfolding file_result push_dropped decimal_64
  write_remote req content path = do
    got ← call req content
    ok (
        or_failure (file_result got.report [] got.stderr got.dropped) (
          push_dropped
            (codes "wrote " ++ path ++ codes " (" ++ decimal_64 (length content) ++ codes " bytes)")
            got.dropped))

  unfoldable pub read_file : Settings → FileParams → Result CallToolResult McpError
  unfolding file_request download_request read_remote
  read_file s p = do req ← file_request download_request s p; read_remote (λ b. b) req

  unfoldable pub write_file : Settings → FileParams → Bytes → Result CallToolResult McpError
  unfolding file_request upload_request write_remote
  write_file s p content = do req ← file_request upload_request s p; write_remote req content p.path

module _ (client : Client) (base64 : Base64) where
  unfoldable pub read_file_binary : Settings → FileParams → Result CallToolResult McpError
  unfolding file_request download_request read_remote
  read_file_binary s p = do
    req ← file_request download_request s p
    read_remote client base64.encode req

  -- The settings are resolved before the content is decoded.
  unfoldable pub write_file_binary : Settings → FileParams → Bytes → Result CallToolResult McpError
  unfolding file_request upload_request write_remote
  write_file_binary s p content_b64 = do
    req ← file_request upload_request s p
    content ← map_err bad_base64 (base64.decode content_b64)
    write_remote client req content p.path
