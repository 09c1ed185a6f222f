-- ===== src/Serve/Watch/Escalation.antt =====
-- The timeout of crates/sp-serve/src/serve.rs: TERM first, KILL after the grace, then silence.
use shell_proxy.Prelude.{
  ℕ, ◌+◌, ◌≤◌, ◌<◌, ◌≡◌, refl, ap, subst, ◌∙◌, ◌⊎◌, inl, inr, Bool, true, false, [], ◌∷◌, ◌++◌,
  Option, none, some, arith, leb, if◌then◌else◌, append_assoc,
}
use shell_proxy.Proto.Frame.{Signal, term, kill, ServeExec, timeout_exit_code}
use shell_proxy.Serve.Watch.{
  term_grace, checked_add, signal, closed, bad, Sel, ctrl, exit, exit_failed, timeout, dead, Log,
  Watch, Turn, go_on, leave, bail, send, start, arm_kill, on_timeout, turn, deadline, IsReached,
  IsEnabled, Loop, here, next, make_up, ExitStatus, report_code,
}

-- A TERM at `t` and a KILL at `u` behind it in the log.
abbrev pub IsTermThenKill : ℕ → ℕ → Log → Type 0
IsTermThenKill t u sent =
    (front : Log) × (mid : Log) × (back : Log) × (sent
      ≡ front ++ (t, term) ∷ (mid ++ (u, kill) ∷ back))

abbrev pub IsTerm : ℕ → Log → Type 0
IsTerm t sent = (front : Log) × (back : Log) × (sent ≡ front ++ (t, term) ∷ back)

-- The KILL comes a grace after the TERM, or with it where the clock cannot hold that instant.
abbrev pub IsGrace : ℕ → ℕ → ℕ → Type 0
IsGrace limit t u = (t + term_grace ≤ u) ⊎ ((u ≡ t) × (limit < t + term_grace))

-- How far the escalation is; `first` is the deadline of the request.
pub data Phase (limit : ℕ) (first : Option ℕ) (w : Watch) : Type 0 where
  running :
      w.timed_out ≡ false → w.kill_deadline ≡ none → w.term_deadline ≡ first → Phase limit first w
  grace :
      (t : ℕ)
      → w.timed_out ≡ true
      → w.kill_deadline ≡ some (t + term_grace)
      → w.term_deadline ≡ none
      → IsReached t first
      → IsTerm t w.sent
      → Phase limit first w
  killed :
      (t u : ℕ)
      → w.timed_out ≡ true
      → w.kill_deadline ≡ none
      → w.term_deadline ≡ none
      → IsReached t first
      → IsGrace limit t u
      → IsTermThenKill t u w.sent
      → Phase limit first w

IsTerm-append : (t : ℕ) (sent more : Log) → IsTerm t sent → IsTerm t (sent ++ more)
IsTerm-append t sent more (front, back, e) =
    (front, back ++ more, rw e (append_assoc front ((t, term) ∷ back) more))

IsTermThenKill-append :
    (t u : ℕ) (sent more : Log) → IsTermThenKill t u sent → IsTermThenKill t u (sent ++ more)
IsTermThenKill-append t u sent more (front, mid, back, e) = (
  front,
  mid,
  back ++ more,
  rw e (
      append_assoc front ((t, term) ∷ (mid ++ (u, kill) ∷ back)) more
      ∙ ap (λ (l : Log). front ++ (t, term) ∷ l) (append_assoc mid ((u, kill) ∷ back) more)),
)

-- A TERM with a KILL behind all that came.
IsTerm-kill : (t u : ℕ) (sent : Log) → IsTerm t sent → IsTermThenKill t u (sent ++ (u, kill) ∷ [])
IsTerm-kill t u sent (front, back, e) =
    (front, back, [], rw e (append_assoc front ((t, term) ∷ back) ((u, kill) ∷ [])))

-- The state of a turn that goes on.
state : Watch → Turn → Watch
state d (go_on w) = w
state d (leave w s) = w
state d (bail w b) = w

module _ (limit : ℕ) (first : Option ℕ) where
  send-Phase :
      (now : ℕ) (s : Signal) (w : Watch) → Phase limit first w → Phase limit first (send now s w)
  send-Phase now s w (running a b c) = running a b c
  send-Phase now s w (grace t a b c d e) = grace t a b c d (IsTerm-append t w.sent _ e)
  send-Phase now s w (killed t u a b c d e f) =
      killed t u a b c d e (IsTermThenKill-append t u w.sent _ f)

  flags-Phase :
      (c d : Bool) (w : Watch)
      → Phase limit first w
      → Phase limit first (record w { ctrl_open = c; dead_done = d })
  flags-Phase c d w (running x y z) = running x y z
  flags-Phase c d w (grace t x y z r s) = grace t x y z r s
  flags-Phase c d w (killed t u x y z r s k) = killed t u x y z r s k

  -- The first timeout, with the instant of the escalation or none.
  arm_kill-Phase :
      (now : ℕ) (w : Watch) (fits : Bool)
      → leb (now + term_grace) limit ≡ fits
      → IsReached now first
      → Phase limit first (
          arm_kill now
            (if fits then some (now + term_grace) else none)
            (record (send now term w) { timed_out = true; term_deadline = none }))
  unfolding arm_kill
  arm_kill-Phase now w true e r = grace now refl refl refl r (w.sent, [], refl)
  arm_kill-Phase now w false e r =
      killed now now refl refl refl r (inr (refl, ground arith))
        (w.sent, [], [], append_assoc w.sent ((now, term) ∷ []) ((now, kill) ∷ []))

  on_timeout-Phase :
      (now : ℕ) (k : Option ℕ) (w : Watch)
      → w.kill_deadline ≡ k
      → IsReached now (deadline k w.term_deadline)
      → Phase limit first w
      → Phase limit first (on_timeout limit now k w)
  unfolding on_timeout checked_add deadline
  on_timeout-Phase now none w e r (running a b c) = arm_kill-Phase now w _ refl (rw c at r)
  on_timeout-Phase now none w e r (grace t a b c d g) = cc
  on_timeout-Phase now none w e r (killed t u a b c d g h) = elim (rw c at r) [ ]
  on_timeout-Phase now (some at) w e r (running a b c) = cc
  on_timeout-Phase now (some at) w e r (grace t a b c d g) =
      let due : at ≡ t + term_grace = cc in
      killed t now refl refl c d (inl (omega arith)) (IsTerm-kill t now w.sent g)
  on_timeout-Phase now (some at) w e r (killed t u a b c d g h) = cc

  turn-Phase :
      (now : ℕ) (sel : Sel) (w v : Watch)
      → IsEnabled now sel w
      → turn limit now sel w ≡ go_on v
      → Phase limit first w
      → Phase limit first v
  unfolding turn state
  turn-Phase now (ctrl (some (signal s))) w v en e p =
      subst (Phase limit first) (ap (state w) e) (send-Phase now s w p)
  turn-Phase now (ctrl (some closed)) w v en e p = cc
  turn-Phase now (ctrl (some (bad x))) w v en e p = cc
  turn-Phase now (ctrl none) w v en e p =
      subst (Phase limit first) (ap (state w) e) (flags-Phase false w.dead_done w p)
  turn-Phase now (exit s) w v en e p = cc
  turn-Phase now (exit_failed x) w v en e p = cc
  turn-Phase now timeout w v en e p =
      subst (Phase limit first) (ap (state w) e) (on_timeout-Phase now w.kill_deadline w refl en p)
  turn-Phase now (dead true) w v en e p = cc
  turn-Phase now (dead false) w v en e p =
      subst (Phase limit first) (ap (state w) e) (flags-Phase w.ctrl_open true w p)

  pub Loop-Phase : {w v : Watch} → Loop limit w v → Phase limit first w → Phase limit first v
  Loop-Phase here p = p
  Loop-Phase (next now sel l en e) p = turn-Phase now sel _ _ en e (Loop-Phase l p)

-- What the log holds when the loop is left and the escalation is made up for.
abbrev pub IsEscalated : ℕ → Option ℕ → Log → Type 0
IsEscalated limit first sent = (t : ℕ) × (u : ℕ) × IsReached t first × IsTermThenKill t u sent

module _ (limit : ℕ) (first : Option ℕ) where
  make_up-IsEscalated :
      (now : ℕ) (k : Option ℕ) (w : Watch)
      → w.kill_deadline ≡ k
      → w.timed_out ≡ true
      → Phase limit first w
      → IsEscalated limit first (make_up now k w).sent
  unfolding make_up
  make_up-IsEscalated now k w e out (running a b c) = cc
  make_up-IsEscalated now none w e out (grace t a b c r g) = cc
  make_up-IsEscalated now (some at) w e out (grace t a b c r g) =
      (t, now, r, IsTerm-kill t now w.sent g)
  make_up-IsEscalated now none w e out (killed t u a b c r g s) = (t, u, r, s)
  make_up-IsEscalated now (some at) w e out (killed t u a b c r g s) = cc

pub start-Phase :
    (limit now0 : ℕ) (req : ServeExec)
    → Phase limit (start limit now0 req).term_deadline (start limit now0 req)
unfolding start
start-Phase limit now0 req = running refl refl refl

IsGrace-of :
    (limit : ℕ) (first : Option ℕ) (w : Watch)
    → w.timed_out ≡ true
    → w.kill_deadline ≡ none
    → Phase limit first w
    → (t : ℕ) × (u : ℕ) × IsGrace limit t u × IsTermThenKill t u w.sent
IsGrace-of limit first w out unarmed (running a b c) = cc
IsGrace-of limit first w out unarmed (grace t a b c r g) = cc
IsGrace-of limit first w out unarmed (killed t u a b c r g s) = (t, u, g, s)

leave_same :
    (limit at : ℕ) (sel : Sel) (w v : Watch) (s : ExitStatus)
    → turn limit at sel w ≡ leave v s
    → w ≡ v
unfolding turn
leave_same limit at (ctrl (some (signal x))) w v s e = cc
leave_same limit at (ctrl (some closed)) w v s e = cc
leave_same limit at (ctrl (some (bad x))) w v s e = cc
leave_same limit at (ctrl none) w v s e = cc
leave_same limit at (exit x) w v s e = cc
leave_same limit at (exit_failed x) w v s e = cc
leave_same limit at timeout w v s e = cc
leave_same limit at (dead true) w v s e = cc
leave_same limit at (dead false) w v s e = cc

timed_out_code :
    (now : ℕ) (k : Option ℕ) (w : Watch) (s : ExitStatus)
    → w.timed_out ≡ true
    → report_code (make_up now k w) s ≡ timeout_exit_code
unfolding make_up report_code
timed_out_code now none w s out = rw out refl
timed_out_code now (some at) w s out = rw out refl

-- When the loop of a command is left with the status of the child and `timed_out` is set, the
-- command had a positive timeout, its deadline was reached, and the log of the group's signals holds
-- a TERM from that moment on and a KILL behind it, be it the escalation or the one made up for after
-- the loop; the report has the exit code of a timeout. A run that bails out of the loop is not meant.
pub timeout_escalates :
    (limit now0 at now : ℕ) (req : ServeExec) (sel : Sel) (w v : Watch) (s : ExitStatus)
    → Loop limit (start limit now0 req) w
    → turn limit at sel w ≡ leave v s
    → v.timed_out ≡ true
    → IsEscalated limit (start limit now0 req).term_deadline (make_up now v.kill_deadline v).sent
      × (report_code (make_up now v.kill_deadline v) s ≡ timeout_exit_code)
timeout_escalates limit now0 at now req sel w v s l left out =
    let first = (start limit now0 req).term_deadline in
    let kept = Loop-Phase limit first l (start-Phase limit now0 req) in
    (
      make_up-IsEscalated limit first now v.kill_deadline v refl out
          (subst (Phase limit first) (leave_same limit at sel w v s left) kept),
      timed_out_code now v.kill_deadline v s out,
    )

-- An escalation that is no longer armed although the command timed out was made: the KILL came at
-- least five seconds after the TERM, or at once where the clock could not hold the later instant.
pub escalation-IsGrace :
    (limit now0 : ℕ) (req : ServeExec) (w : Watch)
    → Loop limit (start limit now0 req) w
    → w.timed_out ≡ true
    → w.kill_deadline ≡ none
    → (t : ℕ) × (u : ℕ) × IsGrace limit t u × IsTermThenKill t u w.sent
escalation-IsGrace limit now0 req w l out unarmed =
    IsGrace-of limit (start limit now0 req).term_deadline w out unarmed
      (Loop-Phase limit (start limit now0 req).term_deadline l (start-Phase limit now0 req))
