-- ===== src/Mcp/Requests.antt =====
-- The requests that the tools of src/mcp.rs make.
use shell_proxy.Prelude.{
  ℕ, zero, suc, ◌⊎◌, inl, inr, ◌≤◌, ◌≡◌, ◌≢◌, refl, subst, Option, none, some, [], ◌∷◌, Result, ok,
  >>=-eq-ok, map_err, Text, arith,
}
use shell_proxy.Proto.Frame.{ExecRequest}
use shell_proxy.Proto.Session.Charset.{IsName}
use shell_proxy.Config.{
  ConfigError, check_timeout_ms, resolve_host, resolve_session, filled, or_no_host,
}
use shell_proxy.Config.Bounds.{map_err-ok, resolve_session-IsName}
use shell_proxy.Mcp.{
  Settings, bad_setting, bad_timeout, ExecParams, tool_host, tool_session, or_default, made,
  exec_request,
}

filled-ne-nil : (o : Option Text) (h : Text) → filled o ≡ some h → h ≢ []
filled-ne-nil none h e n = cc
filled-ne-nil (some []) h e n = cc
filled-ne-nil (some (c ∷ s)) h e n = cc

or_no_host-ne-nil : (o : Option Text) (h : Text) → or_no_host (filled o) ≡ ok h → h ≢ []
or_no_host-ne-nil none h e n = cc
or_no_host-ne-nil (some []) h e n = cc
or_no_host-ne-nil (some (c ∷ s)) h e n = cc

resolve_host-ne-nil :
    (env : Option Text) (config : Result (Option Text) ConfigError) (h : Text)
    → resolve_host none env config ≡ ok h
    → h ≢ []
unfolding resolve_host
resolve_host-ne-nil none config h e =
    let (o, loaded, last) = >>=-eq-ok config (λ host. or_no_host (filled host)) e in
    or_no_host-ne-nil o h last
resolve_host-ne-nil (some []) config h e =
    let (o, loaded, last) = >>=-eq-ok config (λ host. or_no_host (filled host)) e in
    or_no_host-ne-nil o h last
resolve_host-ne-nil (some (c ∷ s)) config h e = λ n. cc

tool_host-ne-nil : (s : Settings) (cli : Option Text) (h : Text) → tool_host s cli ≡ ok h → h ≢ []
unfolding tool_host
tool_host-ne-nil s none h e =
    resolve_host-ne-nil s.env_host s.config_host h
      (map_err-ok bad_setting (resolve_host none s.env_host s.config_host) h e)
tool_host-ne-nil s (some []) h e = λ n. cc
tool_host-ne-nil s (some (c ∷ r)) h e = λ n. unfold resolve_host in cc

-- No timeout at all, which 0 stands for, or one of at most a day.
abbrev pub IsTimeout : ℕ → Type 0
IsTimeout ms = (ms ≡ 0) ⊎ ((1 ≤ ms) × (ms ≤ 86400000))

check_timeout_ms-IsTimeout : (ms : ℕ) (u : Unit {0}) → check_timeout_ms ms ≡ ok u → IsTimeout ms
unfolding check_timeout_ms
check_timeout_ms-IsTimeout zero u h = inl refl
check_timeout_ms-IsTimeout (suc n) u h = inr (omega arith, ground arith)

-- A request that reaches the client runs the very command on a host, in a session with a valid
-- name, under the timeout of the caller or ten minutes.
abbrev pub IsChecked : ExecParams → ExecRequest → Type 0
IsChecked p req =
    (req.command ≡ p.command)
    × (req.host ≢ [])
    × ((name : Text) × (req.session ≡ some name) × IsName name)
    × (req.timeout_ms ≡ some (or_default p.timeout_ms))
    × IsTimeout (or_default p.timeout_ms)

-- Whatever a caller of `exec`, the environment and the loaded file give, a request that is made
-- runs the caller's command, names a host and a valid session, and has the caller's timeout, or ten
-- minutes where the caller gives none: it is 0, with which there is no timeout, or at most a day.
pub exec_request-IsChecked :
    (s : Settings) (p : ExecParams) (req : ExecRequest)
    → exec_request s p ≡ ok req
    → IsChecked p req
unfolding exec_request
exec_request-IsChecked s p req h =
    let (host, hosted, h1) = >>=-eq-ok (tool_host s p.host) _ h in
    let (session, named, h2) = >>=-eq-ok (tool_session s p.session) _ h1 in
    let (u, checked, last) =
      >>=-eq-ok (map_err bad_timeout (check_timeout_ms (or_default p.timeout_ms))) _ h2 in
    let valid = resolve_session-IsName p.session s.env_session session (
      map_err-ok bad_setting (resolve_session p.session s.env_session) session
        (unfold tool_session in named)) in
    let small =
      check_timeout_ms-IsTimeout (or_default p.timeout_ms) u
        (map_err-ok bad_timeout (check_timeout_ms (or_default p.timeout_ms)) u checked) in
    let same : made host session p ≡ req = cc in
    subst (IsChecked p) same
      (refl, tool_host-ne-nil s p.host host hosted, (session.name, refl, valid), refl, small)
