-- ===== src/Ssh/Connect/Bounded.antt =====
-- When `connect` of src/ssh.rs ends, and which steps a connection has passed.
use shell_proxy.Prelude.{
  ℕ, ◌+◌, ◌-◌, ◌*◌, ◌≤◌, ◌≡◌, refl, Bool, true, false, Option, none, some, ok, err, Text, arith,
}
use shell_proxy.SshConfig.{ResolvedHost}
use shell_proxy.Ssh.Connect.{
  connect_timeout_cap, Outcome, Step, World, Connected, timeout, millis, setup_timeout, tcp_timeout,
  after_auth, after_handshake, via_proxy, via_tcp, over, connect,
}

abbrev pub has_proxy : Option Text → Bool
has_proxy none = false
has_proxy (some pc) = true

-- The time there is: for the setup, and in front of it for a connection of TCP.
abbrev pub allowed : ResolvedHost → Option Text → ℕ
allowed h none = tcp_timeout h + setup_timeout h
allowed h (some pc) = setup_timeout h

timeout-Waits : (limit : ℕ) (s : Step) → (timeout limit s).0 ≤ limit
unfolding timeout
timeout-Waits limit (none, o) = omega arith
timeout-Waits limit (some t, o) = ground arith

timeout-Gives : (limit : ℕ) (s : Step) (o : Outcome) → (timeout limit s).1 ≡ some o → s.1 ≡ o
unfolding timeout
timeout-Gives limit (none, o) x eq = cc
timeout-Gives limit (some t, o) x eq = ground arith

-- The transport has come about: the program of the proxy has started, or TCP has connected.
abbrev pub HasTransport : World → Bool → Type 0
HasTransport w true = w.spawned ≡ ok tt
HasTransport w false = w.tcp.1 ≡ ok tt

-- What an end within `n` milliseconds is, for a connection that has or has not a proxy.
abbrev pub IsEnd : World → ℕ → Bool → Connected → Type 0
IsEnd w n proxied c =
    (c.elapsed ≤ n)
    × ((owned : Bool)
        → c.result ≡ ok owned
        → (owned ≡ proxied)
          × HasTransport w proxied
          × (w.handshake.1 ≡ ok tt)
          × (w.authentication.1 ≡ ok tt))
    × (c.killed ≡ true → proxied ≡ true)

after_auth-IsEnd :
    (w : World) (n at : ℕ) (p : Bool) (r : ℕ × Option Outcome)
    → at + r.0 ≤ n
    → HasTransport w p
    → w.handshake.1 ≡ ok tt
    → ((o : Outcome) → r.1 ≡ some o → w.authentication.1 ≡ o)
    → IsEnd w n p (after_auth p at r)
unfolding after_auth
after_auth-IsEnd w n at p (t, some (ok u)) le carried shaken gives =
    (le, λ owned eq. (cc, carried, shaken, gives (ok tt) refl), λ k. cc)
after_auth-IsEnd w n at p (t, some (err e)) le carried shaken gives = (le, λ owned eq. cc, λ k. cc)
after_auth-IsEnd w n at p (t, none) le carried shaken gives = (le, λ owned eq. cc, λ k. cc)

after_handshake-IsEnd :
    (w : World) (n at setup : ℕ) (p : Bool) (r : ℕ × Option Outcome)
    → at + setup ≤ n
    → HasTransport w p
    → r.0 ≤ setup
    → ((o : Outcome) → r.1 ≡ some o → w.handshake.1 ≡ o)
    → IsEnd w n p (after_handshake p at setup w r)
unfolding after_handshake
after_handshake-IsEnd w n at setup p (t, some (ok u)) le carried short gives =
    let waits = timeout-Waits (setup - t) w.authentication in
    after_auth-IsEnd w n (at + t) p (timeout (setup - t) w.authentication) (omega arith) carried
      (gives (ok tt) refl) (timeout-Gives (setup - t) w.authentication)
after_handshake-IsEnd w n at setup p (t, some (err e)) le carried short gives =
    (omega arith, λ owned eq. cc, λ k. cc)
after_handshake-IsEnd w n at setup p (t, none) le carried short gives =
    (omega arith, λ owned eq. cc, λ k. k)

shaken-IsEnd :
    (w : World) (n at setup : ℕ) (p : Bool)
    → at + setup ≤ n
    → HasTransport w p
    → IsEnd w n p (after_handshake p at setup w (timeout setup w.handshake))
shaken-IsEnd w n at setup p le carried =
    after_handshake-IsEnd w n at setup p (timeout setup w.handshake) le carried
      (timeout-Waits setup w.handshake) (timeout-Gives setup w.handshake)

via_proxy-IsEnd :
    (w : World) (setup : ℕ) (o : Outcome) → w.spawned ≡ o → IsEnd w setup true (via_proxy setup w o)
unfolding via_proxy
via_proxy-IsEnd w setup (ok u) same = shaken-IsEnd w setup 0 setup true (omega arith) same
via_proxy-IsEnd w setup (err e) same = (omega arith, λ owned eq. cc, λ k. cc)

via_tcp-IsEnd :
    (w : World) (tcp setup : ℕ) (r : ℕ × Option Outcome)
    → r.0 ≤ tcp
    → ((o : Outcome) → r.1 ≡ some o → w.tcp.1 ≡ o)
    → IsEnd w (tcp + setup) false (via_tcp setup w r)
unfolding via_tcp
via_tcp-IsEnd w tcp setup (t, some (ok u)) le gives =
    shaken-IsEnd w (tcp + setup) t setup false (omega arith) (gives (ok tt) refl)
via_tcp-IsEnd w tcp setup (t, some (err e)) le gives = (omega arith, λ owned eq. cc, λ k. cc)
via_tcp-IsEnd w tcp setup (t, none) le gives = (omega arith, λ owned eq. cc, λ k. cc)

over-IsEnd :
    (h : ResolvedHost) (w : World) (o : Option Text)
    → IsEnd w (allowed h o) (has_proxy o) (over h w o)
over-IsEnd h w none =
    via_tcp-IsEnd w (tcp_timeout h) (setup_timeout h) (timeout (tcp_timeout h) w.tcp)
      (timeout-Waits (tcp_timeout h) w.tcp) (timeout-Gives (tcp_timeout h) w.tcp)
over-IsEnd h w (some pc) = via_proxy-IsEnd w (setup_timeout h) w.spawned refl

allowed_le : (h : ResolvedHost) (o : Option Text) → allowed h o ≤ 2 * millis connect_timeout_cap
allowed_le h none = omega arith
allowed_le h (some pc) = omega arith

-- `connect` ends, whatever hangs: within the time for the setup, with that of a connection of TCP
-- in front of it where there is no proxy command, and within two days however large the configured
-- timeout. For a connection that it gives the program of the proxy had started, or without a proxy
-- command TCP had connected, and the handshake and the authentication had succeeded; it owns a child
-- exactly where there is a proxy command, and a child is killed only there.
pub connect-IsEnd :
    (h : ResolvedHost) (w : World)
    → (allowed h h.proxy_command ≤ 2 * millis connect_timeout_cap)
      × IsEnd w (allowed h h.proxy_command) (has_proxy h.proxy_command) (connect h w)
unfolding connect
connect-IsEnd h w = (allowed_le h h.proxy_command, over-IsEnd h w h.proxy_command)
