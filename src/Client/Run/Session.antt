-- ===== src/Client/Run/Session.antt =====
-- Which frames a client sends in one connection of src/client.rs, and what it prints.
use shell_proxy.Prelude.{
  ℕ, ◌≡◌, refl, ap, subst, ◌⊎◌, inl, inr, Bool, true, false, [], ◌∷◌, ◌++◌, Option, none, some, ok,
  err,
}
use shell_proxy.Proto.Frame.{
  int, term, kill, hup, ExecRequest, ExecFrame, exec, stdin_data, stdin_eof, signal, ping, stdout,
  stderr, exit, pong,
}
use shell_proxy.Client.Run.{
  Run, Frames, Failure, Event, input, input_end, input_broken, frame, sig, Turn, go_on, finish,
  fail, tried, send, is_recent, give_up_input, turn, start, IsEnabled, Loop, here, next,
}

-- The protocol of one connection: a request, then input and one end of it, with signals and pings
-- at any point behind the request.
pub data Phase : Type 0 where
  fresh : Phase
  streaming : Phase
  ended : Phase

abbrev pub take_frame : Phase → ExecFrame ExecRequest → Option Phase
take_frame fresh (exec r) = some streaming
take_frame streaming (stdin_data d) = some streaming
take_frame streaming stdin_eof = some ended
take_frame streaming (signal s) = some streaming
take_frame streaming ping = some streaming
take_frame ended (signal s) = some ended
take_frame ended ping = some ended
take_frame _ _ = none

abbrev and_then : Option Phase → (Phase → Option Phase) → Option Phase
and_then none f = none
and_then (some p) f = f p

abbrev pub phase_after : Phase → Frames → Option Phase
phase_after p [] = some p
phase_after p (f ∷ fs) = and_then (take_frame p f) (λ q. phase_after q fs)

and_then-some :
    (o : Option Phase) (f : Phase → Option Phase) (q : Phase)
    → and_then o f ≡ some q
    → (p : Phase) × (o ≡ some p) × (f p ≡ some q)
and_then-some none f q h = cc
and_then-some (some p) f q h = (p, refl, h)

phase_after-snoc :
    (p q r : Phase) (fs : Frames) (f : ExecFrame ExecRequest)
    → phase_after p fs ≡ some q
    → take_frame q f ≡ some r
    → phase_after p (fs ++ f ∷ []) ≡ some r
phase_after-snoc p q r [] f h e = let same : p ≡ q = cc in rw (same, e)
phase_after-snoc p q r (g ∷ fs) f h e =
    let (m, first, rest) = and_then-some (take_frame p g) (λ q. phase_after q fs) q h in
    rw first (phase_after-snoc m q r fs f rest e)

-- Input is still streaming while it is open; behind its end the phase is `ended`, or `streaming`
-- where the end could not be written.
abbrev pub IsSession : Run → Type 0
IsSession w =
    (phase_after fresh w.sent ≡ some streaming)
    ⊎ ((phase_after fresh w.sent ≡ some ended) × (w.stdin_open ≡ false))

send-streaming :
    (f : ExecFrame ExecRequest) (w : Run)
    → take_frame streaming f ≡ some streaming
    → phase_after fresh w.sent ≡ some streaming
    → phase_after fresh (send f w).sent ≡ some streaming
send-streaming f w e h = phase_after-snoc fresh streaming streaming w.sent f h e

send-IsSession :
    (f : ExecFrame ExecRequest) (w : Run)
    → take_frame streaming f ≡ some streaming
    → take_frame ended f ≡ some ended
    → IsSession w
    → IsSession (send f w)
send-IsSession f w e d (inl h) = inl (send-streaming f w e h)
send-IsSession f w e d (inr (h, closed)) =
    inr (phase_after-snoc fresh ended ended w.sent f h d, closed)

-- While input is open its end was not sent.
streaming-open :
    (w : Run) → w.stdin_open ≡ true → IsSession w → phase_after fresh w.sent ≡ some streaming
streaming-open w on (inl h) = h
streaming-open w on (inr (h, closed)) = cc

-- The state of a turn.
abbrev state : Turn → Run
state (go_on w) = w
state (finish w r) = w
state (fail w e) = w

tried-IsSession :
    (wrote : Option Failure) (w v u : Run) → tried wrote w v ≡ go_on u → IsSession v → IsSession u
tried-IsSession none w v u e h = subst IsSession (ap state e) h
tried-IsSession (some x) w v u e h = cc

give_up-IsSession :
    (wrote : Option Failure) (w : Run)
    → w.stdin_open ≡ true
    → IsSession w
    → IsSession (give_up_input wrote w)
give_up-IsSession none w on h =
    inr (phase_after-snoc fresh streaming ended w.sent stdin_eof (streaming-open w on h) refl, refl)
give_up-IsSession (some x) w on h = inl (streaming-open w on h)

int-IsSession :
    (now : ℕ) (wrote : Option Failure) (w u : Run) (recent : Bool)
    → is_recent w.last_int now ≡ recent
    → turn now wrote (sig (some int)) w ≡ go_on u
    → IsSession w
    → IsSession u
unfolding turn
int-IsSession now wrote w u true e step h = absurd (cc (rw e at step))
int-IsSession now wrote w u false e step h =
    tried-IsSession wrote w _ u (rw e at step) (send-IsSession (signal int) w refl refl h)

turn-IsSession :
    (now : ℕ) (wrote : Option Failure) (e : Event) (w u : Run)
    → IsEnabled e w
    → turn now wrote e w ≡ go_on u
    → IsSession w
    → IsSession u
unfolding turn
turn-IsSession now wrote (input d) w u on step h =
    tried-IsSession wrote w _ u step
      (inl (send-streaming (stdin_data d) w refl (streaming-open w on h)))
turn-IsSession now wrote input_end w u on step h =
    tried-IsSession wrote w _ u step (give_up-IsSession none w on h)
turn-IsSession now wrote input_broken w u on step h =
    subst IsSession (ap state step) (give_up-IsSession wrote w on h)
turn-IsSession now wrote (frame (err e)) w u on step h = cc
turn-IsSession now wrote (frame (ok none)) w u on step h = cc
turn-IsSession now wrote (frame (ok (some (stdout d)))) w u on step h =
    tried-IsSession wrote w _ u step h
turn-IsSession now wrote (frame (ok (some (stderr d)))) w u on step h =
    tried-IsSession wrote w _ u step h
turn-IsSession now wrote (frame (ok (some (exit r)))) w u on step h = cc
turn-IsSession now wrote (frame (ok (some (pong p)))) w u on step h =
    subst IsSession (ap state step) h
turn-IsSession now wrote (sig none) w u on step h = subst IsSession (ap state step) h
turn-IsSession now wrote (sig (some int)) w u on step h = int-IsSession now wrote w u _ refl step h
turn-IsSession now wrote (sig (some term)) w u on step h =
    tried-IsSession wrote w _ u step (send-IsSession (signal term) w refl refl h)
turn-IsSession now wrote (sig (some kill)) w u on step h =
    tried-IsSession wrote w _ u step (send-IsSession (signal kill) w refl refl h)
turn-IsSession now wrote (sig (some hup)) w u on step h =
    tried-IsSession wrote w _ u step (send-IsSession (signal hup) w refl refl h)

steps-IsSession : {w v : Run} → Loop w v → IsSession w → IsSession v
steps-IsSession here h = h
steps-IsSession (next now wrote e l on step) h =
    turn-IsSession now wrote e _ _ on step (steps-IsSession l h)

-- Whatever the input, the daemon and the console do, the frames that a client sends are one
-- request, then input data, and behind at most one end of the input no data any more, with signals
-- at any point; and where the end of the input was sent, the input is not read again.
pub Loop-IsSession : (req : ExecRequest) (v : Run) → Loop (start req) v → IsSession v
Loop-IsSession req v l = steps-IsSession l (inl refl)
