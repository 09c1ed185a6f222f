-- ===== src/Daemon/Order.antt =====
-- The executions of all sessions of src/daemon.rs, interleaved: the steps of `handle_exec` on the
-- table of sessions and on the lock of `SessionState`.
pub mod Alone
use shell_proxy.Prelude.{
  ℕ, ◌≡◌, refl, List, [], ◌∷◌, ◌++◌, Option, none, some, Bool, true, false, Text, if◌then◌else◌,
}
use shell_proxy.Daemon.Shared.{
  SessionKey, Sessions, eq_key, cwd_of, has_session, get_session, set_cwd,
}
use shell_proxy.Daemon.Exec.{or_else}

-- The table, and which locks are held.
pub record Locked : Type 0 where
  pub sessions : Sessions
  pub held : SessionKey → Bool

pub data Event : Type 0 where
  entered : SessionKey → Event
  started : SessionKey → Option Text → Option Text → Event
  ended : SessionKey → Option Text → Event

unfoldable pub with_lock : SessionKey → Bool → (SessionKey → Bool) → SessionKey → Bool
unfolding eq_key
with_lock key b held k = if eq_key key k then b else held k

unfoldable pub store : SessionKey → Option Text → Sessions → Sessions
unfolding set_cwd
store key none ss = ss
store key (some cwd) ss = set_cwd key cwd ss

abbrev pub first_state : Locked
first_state = record { sessions = []; held = λ k. false }

-- `get_session`; the lock with the choice of the directory, of the request or of the session; the
-- report with its new directory and the release.
pub data Step : Locked → Event → Locked → Type 0 where
  enter :
      (key : SessionKey) (s : Locked)
      → Step s (entered key) (record s { sessions = get_session key s.sessions })
  start :
      (key : SessionKey) (asked : Option Text) (s : Locked)
      → has_session key s.sessions ≡ true
      → s.held key ≡ false
      → Step s
          (started key asked (or_else asked (cwd_of key s.sessions)))
          (record s { held = with_lock key true s.held })
  finish :
      (key : SessionKey) (new_cwd : Option Text) (s : Locked)
      → s.held key ≡ true
      → Step s
          (ended key new_cwd)
          (record { sessions = store key new_cwd s.sessions; held = with_lock key false s.held })

-- The events so far, in order, with the state they lead to.
pub data Run : List Event → Locked → Type 0 where
  nothing : Run [] first_state
  then_step :
      (es : List Event) (e : Event) (s t : Locked) → Run es s → Step s e t → Run (es ++ e ∷ []) t
