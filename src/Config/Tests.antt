-- ===== src/Config/Tests.antt =====
-- The settings of src/config.rs and src/main.rs at concrete inputs.
use shell_proxy.Prelude.{◌≡◌, refl, none, some, ok, err, codes, []}
use shell_proxy.Proto.Session.{parse, is_allowed}
use shell_proxy.Config.{
  timeout_too_large, parse_timeout_secs, effective_timeout_ms, resolve_session, resolve_host,
  no_host,
}

minute_parsed : parse_timeout_secs (codes "60") ≡ ok 60
unfolding parse_timeout_secs
minute_parsed = refl

-- A day and a second is too long.
day_refused : parse_timeout_secs (codes "86401") ≡ err (timeout_too_large 86401000)
unfolding parse_timeout_secs
day_refused = refl

minute_effective : effective_timeout_ms (some 60) (ok 5) ≡ ok (some 60000)
unfolding effective_timeout_ms
minute_effective = refl

agent_resolved : resolve_session none (some (codes "agent")) ≡ ok (record { name = codes "agent" })
unfolding resolve_session parse is_allowed
agent_resolved = refl

option_wins : resolve_host (some (codes "a")) (some (codes "b")) (ok none) ≡ ok (codes "a")
unfolding resolve_host
option_wins = refl

no_host_is_an_error : resolve_host none (some []) (ok none) ≡ err no_host
unfolding resolve_host
no_host_is_an_error = refl
