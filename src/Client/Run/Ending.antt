-- ===== src/Client/Run/Ending.antt =====
-- What a run of src/client.rs prints, and how it ends.
use shell_proxy.Prelude.{
  ℕ, ◌-◌, ◌<◌, ◌≡◌, refl, sym, ap, subst, ◌∙◌, ◌⊎◌, Bool, true, false, [], ◌∷◌, ◌++◌, Option, none,
  some, append_assoc, append-nil, ok, err, pos,
}
use shell_proxy.Proto.Frame.{
  Bytes, int, term, kill, hup, ExecRequest, ExitReport, ExecFrame, signal, stdin_data, stdin_eof,
  stdout, stderr, exit, pong,
}
use shell_proxy.Client.Run.{
  Run, RunReport, from_exit, forced, Frames, Failure, Event, input, input_end, input_broken, frame,
  sig, Turn, go_on, finish, fail, tried, send, is_recent, give_up_input, turn, start, Loop, here,
  next,
}

-- What the daemon sent for the two outputs in one event.
abbrev out_of : Event → Bytes
out_of (frame (ok (some (stdout d)))) = d
out_of _ = []

abbrev errs_of : Event → Bytes
errs_of (frame (ok (some (stderr d)))) = d
errs_of _ = []

pub received_out : {w v : Run} → Loop w v → Bytes
received_out here = []
received_out (next now wrote e l on step) = received_out l ++ out_of e

pub received_errs : {w v : Run} → Loop w v → Bytes
received_errs here = []
received_errs (next now wrote e l on step) = received_errs l ++ errs_of e

-- The invariant of a run: what was printed, and that the last interrupt was sent on.
abbrev IsForwarded : Frames → Type 0
IsForwarded sent = (front : Frames) × (back : Frames) × (sent ≡ front ++ signal int ∷ back)

abbrev Forwards : Run → Type 0
Forwards w = (t : ℕ) → w.last_int ≡ some t → IsForwarded w.sent

abbrev Steps : Bytes → Bytes → Run → Run → Type 0
Steps d e w u = (u.out ≡ w.out ++ d) × (u.errs ≡ w.errs ++ e) × (Forwards w → Forwards u)

abbrev state : Turn → Run
state (go_on w) = w
state (finish w r) = w
state (fail w e) = w

send-Forwards : (f : ExecFrame ExecRequest) (w : Run) → Forwards w → Forwards (send f w)
send-Forwards f w h t e =
    let (front, back, split) = h t e in
    (front, back ++ f ∷ [], rw split (append_assoc front (signal int ∷ back) (f ∷ [])))

tried-Steps :
    (wrote : Option Failure) (d e : Bytes) (w x v u : Run)
    → tried wrote x v ≡ go_on u
    → Steps d e w v
    → Steps d e w u
tried-Steps none d e w x v u step h = subst (Steps d e w) (ap state step) h
tried-Steps (some f) d e w x v u step h = cc

int-Steps :
    (now : ℕ) (wrote : Option Failure) (w u : Run) (recent : Bool)
    → is_recent w.last_int now ≡ recent
    → turn now wrote (sig (some int)) w ≡ go_on u
    → Steps [] [] w u
unfolding turn
int-Steps now wrote w u true e step = absurd (cc (rw e at step))
int-Steps now wrote w u false e step =
    tried-Steps wrote [] [] w w _ u (rw e at step)
      (sym (append-nil w.out), sym (append-nil w.errs), (λ h t same. (w.sent, [], refl)))

give_up-Steps : (wrote : Option Failure) (w : Run) → Steps [] [] w (give_up_input wrote w)
give_up-Steps none w =
    (sym (append-nil w.out), sym (append-nil w.errs), (send-Forwards stdin_eof w))
give_up-Steps (some e) w = (sym (append-nil w.out), sym (append-nil w.errs), (λ h. h))

turn-Steps :
    (now : ℕ) (wrote : Option Failure) (e : Event) (w u : Run)
    → turn now wrote e w ≡ go_on u
    → Steps (out_of e) (errs_of e) w u
unfolding turn
turn-Steps now wrote (input d) w u step =
    tried-Steps wrote [] [] w w _ u step
      (sym (append-nil w.out), sym (append-nil w.errs), (send-Forwards (stdin_data d) w))
turn-Steps now wrote input_end w u step =
    tried-Steps wrote [] [] w w _ u step
      (sym (append-nil w.out), sym (append-nil w.errs), (send-Forwards stdin_eof w))
turn-Steps now wrote input_broken w u step =
    subst (Steps [] [] w) (ap state step) (give_up-Steps wrote w)
turn-Steps now wrote (frame (err e)) w u step = cc
turn-Steps now wrote (frame (ok none)) w u step = cc
turn-Steps now wrote (frame (ok (some (stdout d)))) w u step =
    tried-Steps wrote d [] w w _ u step (refl, sym (append-nil w.errs), λ h. h)
turn-Steps now wrote (frame (ok (some (stderr d)))) w u step =
    tried-Steps wrote [] d w w _ u step (sym (append-nil w.out), refl, λ h. h)
turn-Steps now wrote (frame (ok (some (exit r)))) w u step = cc
turn-Steps now wrote (frame (ok (some (pong p)))) w u step =
    subst (Steps [] [] w) (ap state step)
      (sym (append-nil w.out), sym (append-nil w.errs), (λ h. h))
turn-Steps now wrote (sig none) w u step =
    subst (Steps [] [] w) (ap state step)
      (sym (append-nil w.out), sym (append-nil w.errs), (λ h. h))
turn-Steps now wrote (sig (some int)) w u step = int-Steps now wrote w u _ refl step
turn-Steps now wrote (sig (some term)) w u step =
    tried-Steps wrote [] [] w w _ u step
      (sym (append-nil w.out), sym (append-nil w.errs), (send-Forwards (signal term) w))
turn-Steps now wrote (sig (some kill)) w u step =
    tried-Steps wrote [] [] w w _ u step
      (sym (append-nil w.out), sym (append-nil w.errs), (send-Forwards (signal kill) w))
turn-Steps now wrote (sig (some hup)) w u step =
    tried-Steps wrote [] [] w w _ u step
      (sym (append-nil w.out), sym (append-nil w.errs), (send-Forwards (signal hup) w))

Loop-Steps : {w v : Run} (l : Loop w v) → Steps (received_out l) (received_errs l) w v
unfolding received_out received_errs
Loop-Steps {w} here = (sym (append-nil w.out), sym (append-nil w.errs), (λ h. h))
Loop-Steps {w} (next now wrote e l on step) =
    let (o, s, f) = Loop-Steps l in
    let (o', s', f') = turn-Steps now wrote e _ _ step in
    (
      o' ∙ ap (λ (b : Bytes). b ++ out_of e) o ∙ append_assoc w.out (received_out l) (out_of e),
      s' ∙ ap (λ (b : Bytes). b ++ errs_of e) s ∙ append_assoc w.errs (received_errs l) (errs_of e),
      λ h. f' (f h),
    )

-- What a client printed at any point of a run is what the daemon's frames for standard output
-- held, in order, and likewise for standard error.
pub Loop-received :
    (req : ExecRequest) (v : Run) (l : Loop (start req) v)
    → (v.out ≡ received_out l) × (v.errs ≡ received_errs l)
Loop-received req v l = let (o, s, f) = Loop-Steps l in (o, s)

-- The two ways in which a run ends with a report.
abbrev pub IsEnding : ℕ → Event → Run → RunReport → Type 0
IsEnding now e w r =
    ((x : ExitReport) × (e ≡ frame (ok (some (exit x)))) × (r ≡ from_exit x))
    ⊎ ((t : ℕ) × (e ≡ sig (some int))
        × (w.last_int ≡ some t)
        × (now - t < 1000)
        × IsForwarded w.sent
        × (r.code ≡ pos 130))

abbrev report : Turn → RunReport
report (finish w r) = r
report (go_on w) = forced
report (fail w e) = forced
