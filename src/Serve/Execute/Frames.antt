-- ===== src/Serve/Execute/Frames.antt =====
-- What a run of sp-serve puts on standard output.
use shell_proxy.Prelude.{
  ℕ, ◌++◌, ◌≡◌, refl, sym, ap, subst, ◌∙◌, Bool, true, false, List, [], ◌∷◌, Option, none, some,
  if◌then◌else◌, Result, ok, err, All, All-append, append_assoc,
}
use shell_proxy.Proto.Frame.{EventFrame, exit, ServeExec, ExitReport}
use shell_proxy.Serve.Pipe.{Got}
use shell_proxy.Serve.State.{System, Files}
use shell_proxy.Serve.Watch.{Watch, Turn, go_on, leave, bail, turn, start, make_up, ExitStatus}
use shell_proxy.Serve.Output.{
  Output, new_output, Poll, poll, polls, Drained, drain_pumps, abort_pumps, WriteEnd, flushed,
  refused, never, flush_queue,
}
use shell_proxy.Serve.Output.Pumps.{
  content, of_stdout, of_stderr, bytes_of, IsPrefix, Kept-IsPrefix,
}
use shell_proxy.Serve.Output.Order.{
  IsOutput, front_IsPrefix, KeepsOut, KeepsErr, SendsOutput, poll-KeepsOut, poll-KeepsErr,
  poll-SendsOutput,
}
use shell_proxy.Serve.Output.Drained.{polls-keeps, drain_pumps-keeps, flush_queue_front}
use shell_proxy.Serve.Execute.{
  Fatal, Round, Closing, Served, Looped, after_turn, main_loop, closing_report, finish, stop_router,
  after_drain, after_loop, Child, execute, already_reaped, write_exit, await_writer,
}

-- What the tasks keep for two pipes.
abbrev pub Keeps : List Got → List Got → Output → Type 0
Keeps out_pipe err_pipe o =
    KeepsOut (content out_pipe) o × KeepsErr (content err_pipe) o × SendsOutput o

-- Frames that may stand in front of a report, with a front of each pipe.
abbrev pub AreOutputs : List Got → List Got → List EventFrame → Type 0
AreOutputs out_pipe err_pipe fs =
    All IsOutput fs
    × IsPrefix (bytes_of of_stdout fs) (content out_pipe)
    × IsPrefix (bytes_of of_stderr fs) (content err_pipe)

-- Behind the outputs a run that succeeded has its one report, and another has none.
abbrev pub EndsIn : Result (Unit {0}) Fatal → List EventFrame → List EventFrame → Type 0
EndsIn (ok t) outs frames = (r : ExitReport) × (frames ≡ outs ++ exit r ∷ [])
EndsIn (err e) outs frames = frames ≡ outs

abbrev pub IsServed : List Got → List Got → Served → Type 0
IsServed out_pipe err_pipe v =
    (outs : List EventFrame) × AreOutputs out_pipe err_pipe outs × EndsIn v.result outs v.frames

module _ (a b : List Got) where
  pub poll-Keeps : (p : Poll) (o : Output) → Keeps a b o → Keeps a b (poll p o)
  poll-Keeps p o (out, errs, sends) = (
    poll-KeepsOut (content a) p o out,
    poll-KeepsErr (content b) p o errs,
    poll-SendsOutput p o sends,
  )

  sent-AreOutputs : (o : Output) → Keeps a b o → AreOutputs a b (o.written ++ o.queue)
  sent-AreOutputs o ((out, quiet), (errs, still), (w, q, held, pending)) = (
    All-append IsOutput o.written o.queue w q,
    Kept-IsPrefix o.writer_alive _ _ _ out,
    Kept-IsPrefix o.writer_alive _ _ _ errs,
  )

  All-front : (fs gs : List EventFrame) → All IsOutput (fs ++ gs) → All IsOutput fs
  All-front [] gs h = tt
  All-front (f ∷ fs) gs (h, hs) = (h, All-front fs gs hs)

  front-AreOutputs : (fs gs : List EventFrame) → AreOutputs a b (fs ++ gs) → AreOutputs a b fs
  front-AreOutputs fs gs (all, out, errs) = (
    All-front fs gs all,
    front_IsPrefix of_stdout fs gs _ out,
    front_IsPrefix of_stderr fs gs _ errs,
  )

  written-AreOutputs : (o : Output) → Keeps a b o → AreOutputs a b o.written
  written-AreOutputs o h = front-AreOutputs o.written o.queue (sent-AreOutputs o h)

  -- The writer's last frames.
  flushed-AreOutputs :
      (bs : List WriteEnd) (o : Output)
      → AreOutputs a b (o.written ++ o.queue)
      → AreOutputs a b (o.written ++ (flush_queue bs o.queue).0)
  flushed-AreOutputs bs o h =
      let (rest, same) = flush_queue_front bs o.queue in
      front-AreOutputs (o.written ++ (flush_queue bs o.queue).0) rest (
        subst (λ (q : List EventFrame). AreOutputs a b q)
          (ap (λ (q : List EventFrame). o.written ++ q) (sym same)
            ∙ sym (append_assoc o.written (flush_queue bs o.queue).0 rest))
          h)

  abbrev pub Comes : Option Served → Type 0
  Comes none = Unit
  Comes (some v) = IsServed a b v

  write_exit-Comes :
      (t : WriteEnd) (r : ExitReport) (outs : List EventFrame) (files : List Files)
      → AreOutputs a b outs
      → Comes (write_exit t r outs files)
  write_exit-Comes flushed r outs files h = (outs, h, (r, refl))
  write_exit-Comes refused r outs files h = (outs, h, refl)
  write_exit-Comes never r outs files h = tt

  await_writer-Comes : (t : WriteEnd) (o : Option Served) → Comes o → Comes (await_writer t o)
  await_writer-Comes flushed o h = h
  await_writer-Comes refused o h = h
  await_writer-Comes never o h = tt

  finish-Comes :
      (sys : System) (req : ServeExec) (w : Watch) (s : ExitStatus) (c : Closing) (o : Output)
      (fs : Files)
      → AreOutputs a b (o.written ++ o.queue)
      → Comes (finish sys req w s c o fs)
  unfolding finish
  finish-Comes sys req w s c o fs h =
      await_writer-Comes (flush_queue c.writes o.queue).1 _ (
        write_exit-Comes c.exit_written (closing_report w s c) _ _
          (flushed-AreOutputs c.writes o h))

  after_drain-Comes :
      (d : Drained) (next : Output → Option Served)
      → Keeps a b d.0
      → ((o : Output) → AreOutputs a b (o.written ++ o.queue) → Comes (next o))
      → Comes (after_drain d next)
  after_drain-Comes (o, none) next h all = tt
  after_drain-Comes (o, some true) next h all = all o (sent-AreOutputs o h)
  after_drain-Comes (o, some false) next h all =
      all (abort_pumps o) (unfold abort_pumps in sent-AreOutputs o h)

  abbrev LoopKeeps : Looped → Type 0
  LoopKeeps (o, t) = Keeps a b o

  main_loop-Keeps :
      (limit : ℕ) (rs : List Round) (w : Watch) (o : Output)
      → Keeps a b o
      → Keeps a b (main_loop limit rs w o).0
  unfolding main_loop
  main_loop-Keeps limit [] w o h = h
  main_loop-Keeps limit (r ∷ rs) w o h =
      taken (turn limit r.now r.sel w) (λ v. main_loop-Keeps limit rs v (polls r.before o) kept)
    where
      kept : Keeps a b (polls r.before o)
      kept = polls-keeps (Keeps a b) poll-Keeps r.before o h

      taken :
          (t : Turn)
          → ((v : Watch) → Keeps a b (main_loop limit rs v (polls r.before o)).0)
          → Keeps a b
              (after_turn (polls r.before o) t (λ v. main_loop limit rs v (polls r.before o))).0
      taken (go_on v) rest = rest v
      taken (leave v s) rest = kept
      taken (bail v e) rest = kept

  after_loop-Comes :
      (limit : ℕ) (sys : System) (req : ServeExec) (c : Closing) (fs : Files) (l : Looped)
      → Keeps a b l.0
      → Comes (after_loop limit sys req c fs l)
  after_loop-Comes limit sys req c fs (o, none) h = tt
  after_loop-Comes limit sys req c fs (o, some (go_on w)) h = tt
  after_loop-Comes limit sys req c fs (o, some (bail w e)) h =
      (o.written, written-AreOutputs o h, refl)
  after_loop-Comes limit sys req c fs (o, some (leave w s)) h =
      after_drain-Comes (drain_pumps limit c.drain_at c.ticks (stop_router o))
        (λ o. finish sys req (make_up c.kill_at w.kill_deadline w) s c o fs)
        (drain_pumps-keeps (Keeps a b) poll-Keeps limit c.drain_at c.ticks (stop_router o) h)
        (λ o sent. finish-Comes sys req (make_up c.kill_at w.kill_deadline w) s c o fs sent)

  new-Keeps : Keeps a b (new_output a b)
  new-Keeps = ((refl, tt), (refl, tt), (tt, tt, tt, tt))

pub execute-Comes :
    (limit now : ℕ) (sys : System) (req : ServeExec) (child : Child) (rounds : List Round)
    (c : Closing) (fs : Files)
    → Comes child.out_pipe child.err_pipe (execute limit now sys req child rounds c fs)
unfolding execute
execute-Comes limit now sys req child rounds c fs = by_id child.has_id
  where
    by_id :
        (b : Bool)
        → Comes child.out_pipe child.err_pipe (
            if b
            then after_loop limit sys req c fs (
                main_loop limit rounds
                  (start limit now req)
                  (new_output child.out_pipe child.err_pipe))
            else some record { frames = []; files = fs ∷ []; result = err already_reaped })
    by_id true =
        after_loop-Comes child.out_pipe child.err_pipe limit sys req c fs
          (main_loop limit rounds (start limit now req) (new_output child.out_pipe child.err_pipe))
          (main_loop-Keeps child.out_pipe child.err_pipe limit rounds (start limit now req)
            (new_output child.out_pipe child.err_pipe) (new-Keeps child.out_pipe child.err_pipe))
    by_id false = ([], (tt, (content child.out_pipe, refl), (content child.err_pipe, refl)), refl)
