-- ===== src/Serve/Execute/Answer.antt =====
-- How a whole run of sp-serve answers, from its first frame to its exit code.
use shell_proxy.Prelude.{
  ◌++◌, ◌≡◌, refl, ℤ, pos, List, [], ◌∷◌, Option, none, some, Result, ok, err, Text, codes, All,
  ◌⊎◌, inl, inr,
}
use shell_proxy.Proto.Frame.{Bytes, EventFrame, exit, ServeExec, ExitReport}
use shell_proxy.Proto.Session.{SessionId, SessionNameError, parse}
use shell_proxy.Serve.State.{Files, StateError, load_state}
use shell_proxy.Serve.Output.{WriteEnd, flushed, refused, never}
use shell_proxy.Serve.Output.Order.{IsOutput}
use shell_proxy.Serve.Execute.{
  Fatal, Served, Child, World, write_exit, internal_error, fail, with_child, with_state,
  with_session, with_request, with_handlers, first_request, exit_code, execute, inner, run,
}
use shell_proxy.Serve.Execute.Frames.{EndsIn, Comes, execute-Comes}

-- Output frames, with one report behind them or none.
abbrev Answers : Result (Unit {0}) Fatal → List EventFrame → Type 0
Answers r frames = (outs : List EventFrame) × All IsOutput outs × EndsIn r outs frames

abbrev IsAnswered : Option Served → Type 0
IsAnswered none = Unit
IsAnswered (some v) = Answers v.result v.frames

write_exit-Answers :
    (t : WriteEnd) (r : ExitReport) (files : List Files) → IsAnswered (write_exit t r [] files)
write_exit-Answers flushed r files = ([], tt, (r, refl))
write_exit-Answers refused r files = ([], tt, refl)
write_exit-Answers never r files = tt

forget : (child : Child) (o : Option Served) → Comes child.out_pipe child.err_pipe o → IsAnswered o
forget child none h = tt
forget child (some v) (outs, (all, out_front, err_front), ends) = (outs, all, ends)

module _ (world : World) (fs : Files) where
  failed : (what e : Text) → IsAnswered (fail world fs what e)
  failed what e =
      write_exit-Answers world.closing.exit_written (internal_error (what ++ e)) (fs ∷ [])

  child-IsAnswered :
      (req : ServeExec) (c : Result Child Text) → IsAnswered (with_child world fs req c)
  child-IsAnswered req (err e) = failed (codes "spawn bash: ") e
  child-IsAnswered req (ok child) =
      forget child
        (execute world.limit world.started world.sys req child world.rounds world.closing fs)
        (execute-Comes world.limit world.started world.sys req child world.rounds world.closing fs)

  state-IsAnswered :
      (req : ServeExec) (s : Result (Option Bytes) StateError)
      → IsAnswered (with_state world fs req s)
  state-IsAnswered req (err e) = failed (codes "session state: ") (world.shows.state_error e)
  state-IsAnswered req (ok state) = child-IsAnswered req (world.spawn req state)

  session-IsAnswered :
      (req : ServeExec) (n : Result SessionId SessionNameError)
      → IsAnswered (with_session world fs req n)
  session-IsAnswered req (err e) =
      failed (codes "invalid session name: ") (world.shows.name_error e)
  session-IsAnswered req (ok id) = state-IsAnswered req (load_state world.sys req.session fs)

  request-IsAnswered : (r : Result ServeExec Fatal) → IsAnswered (with_request world fs r)
  request-IsAnswered (err e) = ([], tt, refl)
  request-IsAnswered (ok req) = session-IsAnswered req (parse req.session)

  inner-IsAnswered : IsAnswered (inner world fs)
  unfolding inner
  inner-IsAnswered = by_handlers world.handlers
    where
      by_handlers : (h : Result (Unit {0}) Text) → IsAnswered (with_handlers world fs h)
      by_handlers (err e) = ([], tt, refl)
      by_handlers (ok t) = request-IsAnswered (first_request world.first)

-- One report and the exit code 0, or no report and the exit code 1.
abbrev pub IsHonest : List EventFrame → ℤ → Type 0
IsHonest frames code =
    ((code ≡ pos 0)
      × (outs : List EventFrame) × (r : ExitReport) × All IsOutput outs
      × (frames ≡ outs ++ exit r ∷ []))
    ⊎ ((code ≡ pos 1) × All IsOutput frames)

honest :
    (v : Served) (r : Result (Unit {0}) Fatal)
    → Answers r v.frames
    → IsHonest v.frames (exit_code r)
honest v (ok t) (outs, all, (r, same)) = inl (refl, outs, r, all, same)
honest v (err e) (outs, all, same) = inr (refl, rw same all)

-- Whatever comes first, whatever the session, the state file and the start of bash give and the
-- tasks do, a run that comes to an end has returned the exit code 0 and sent exactly one report, as
-- its last frame, or it has returned 1 and sent none; all other frames are output or pongs.
pub run-IsHonest :
    (world : World) (fs : Files) (frames : List EventFrame) (code : ℤ)
    → run world fs ≡ some (frames, code)
    → IsHonest frames code
unfolding run
run-IsHonest world fs frames code = by (inner world fs) (inner-IsAnswered world fs)
  where
    by :
        (o : Option Served)
        → IsAnswered o
        → (elim o as (λ _. Option (List EventFrame × ℤ)) [
          | none ↦ none
          | some v ↦ some (v.frames, exit_code v.result)
        ])
          ≡ some (frames, code)
        → IsHonest frames code
    by none h e = cc
    by (some v) h e =
        let same : frames ≡ v.frames = cc in
        let code_same : code ≡ exit_code v.result = cc in rw (same, code_same) (honest v v.result h)
