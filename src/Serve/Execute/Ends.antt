-- ===== src/Serve/Execute/Ends.antt =====
-- A run ends, where its child and its writes do: the wait for the child ends its loop, and the grace
-- its drain.
use shell_proxy.Prelude.{
  ℕ, ◌+◌, ◌≤◌, ◌++◌, ◌≡◌, refl, Bool, true, false, Bool-cases, List, [], ◌∷◌, Option, none, some,
  All, ◌≢◌, ltb, leb, leb→le, arith, ◌⊎◌, inl, inr,
}
use shell_proxy.Proto.Frame.{ServeExec, EventFrame, ExitReport}
use shell_proxy.Serve.Pipe.{Got}
use shell_proxy.Serve.State.{System, Files}
use shell_proxy.Serve.Watch.{
  exit, Watch, make_up, Turn, go_on, leave, bail, turn, start, ExitStatus, checked_add,
}
use shell_proxy.Serve.Output.{
  Output, new_output, poll, polls, Drain, Look, out_ended, err_ended, changed, stalled, Tick, task,
  branch, look, with_deadline, Drained, after_look, all_done, drain_loop, first_drain, drain_pumps,
  drain_grace, is_finished, WriteEnd, flushed, refused, never, flush_queue, abort_pumps,
}
use shell_proxy.Serve.Execute.{
  Round, Closing, Served, Looped, after_turn, main_loop, stop_router, after_drain, after_loop,
  Child, execute, finish, write_exit, await_writer, closing_report,
}
use shell_proxy.Serve.Execute.Frames.{Comes, IsServed, execute-Comes}

-- A schedule with the look at a deadline at the end of the clock behind it.
abbrev pub at_last : ℕ → List Tick → List Tick
at_last limit ts = ts ++ branch limit stalled ∷ []

-- The rounds with the exit of the child behind them.
abbrev pub until_exit : List Round → Round → List Round
until_exit rs r = rs ++ r ∷ []

abbrev IsOver : Drained → Type 0
IsOver (o, r) = (b : Bool) × (r ≡ some b)

abbrev InTime : ℕ → Drain ⊎ Bool → Type 0
InTime limit (inl d) = d.stop_at ≤ limit
InTime limit (inr b) = Unit

with_deadline-InTime :
    (limit now seen : ℕ) (d : Drain)
    → InTime limit (with_deadline (checked_add limit now drain_grace) seen d)
unfolding checked_add
with_deadline-InTime limit now seen d = elim (Bool-cases (leb (now + drain_grace) limit)) [
  | inl fits ↦ rw fits (ground arith)
  | inr over ↦ rw over tt
]

look-InTime :
    (limit now : ℕ) (l : Look) (o : Output) (d : Drain)
    → d.stop_at ≤ limit
    → InTime limit (look limit now l o d)
unfolding look
look-InTime limit now out_ended o d h = elim (Bool-cases (is_finished o.out_pump)) [
  | inl e ↦ rw e h
  | inr e ↦ rw e h
]
look-InTime limit now err_ended o d h = elim (Bool-cases (is_finished o.err_pump)) [
  | inl e ↦ rw e h
  | inr e ↦ rw e h
]
look-InTime limit now changed o d h = elim (Bool-cases (ltb d.seen o.progress)) [
  | inl new ↦ rw new (with_deadline-InTime limit now o.progress d)
  | inr old ↦ elim (Bool-cases o.writer_alive) [ inl e ↦ rw (old, e) h | inr e ↦ rw (old, e) tt ]
]
look-InTime limit now stalled o d h = elim (Bool-cases (leb d.stop_at now)) [
  | inl e ↦ rw e tt
  | inr e ↦ rw e h
]

drain_loop-IsOver :
    (limit : ℕ) (ts : List Tick) (o : Output) (d : Drain)
    → d.stop_at ≤ limit
    → IsOver (drain_loop limit (at_last limit ts) o d)
unfolding drain_loop
drain_loop-IsOver limit [] o d h = elim (Bool-cases (all_done d)) [
  | inl done ↦ rw done (true, refl)
  | inr more ↦
      let over : leb d.stop_at limit ≡ true = ground arith in
      rw more (unfold look in rw over (false, refl))
]
drain_loop-IsOver limit (task p ∷ ts) o d h = elim (Bool-cases (all_done d)) [
  | inl done ↦ rw done (true, refl)
  | inr more ↦ rw more (drain_loop-IsOver limit ts (poll p o) d h)
]
drain_loop-IsOver limit (branch now l ∷ ts) o d h = elim (Bool-cases (all_done d)) [
  | inl done ↦ rw done (true, refl)
  | inr more ↦ rw more (
      looked (look limit now l o d) (look-InTime limit now l o d h)
        (λ e. drain_loop-IsOver limit ts o e))
]
  where
    looked :
        (r : Drain ⊎ Bool)
        → InTime limit r
        → ((e : Drain) → e.stop_at ≤ limit → IsOver (drain_loop limit (at_last limit ts) o e))
        → IsOver (after_look o r (drain_loop limit (at_last limit ts) o))
    looked (inl e) fits rest = rest e fits
    looked (inr b) fits rest = (b, refl)

drain_pumps-IsOver :
    (limit now : ℕ) (ts : List Tick) (o : Output)
    → IsOver (drain_pumps limit now (at_last limit ts) o)
unfolding drain_pumps checked_add
drain_pumps-IsOver limit now ts o = elim (Bool-cases (leb (now + drain_grace) limit)) [
  | inl fits ↦
      rw fits (drain_loop-IsOver limit ts o (first_drain (now + drain_grace)) (leb→le _ _ fits))
  | inr over ↦ rw over (false, refl)
]

abbrev IsLeft : Looped → Type 0
IsLeft (o, none) = ⊥
IsLeft (o, some (go_on w)) = ⊥
IsLeft (o, some (leave w s)) = Unit
IsLeft (o, some (bail w b)) = Unit

main_loop-IsLeft :
    (limit : ℕ) (rs : List Round) (r : Round) (s : ExitStatus) (w : Watch) (o : Output)
    → r.sel ≡ exit s
    → IsLeft (main_loop limit (until_exit rs r) w o)
unfolding main_loop
main_loop-IsLeft limit [] r s w o h = rw h (unfold turn in tt)
main_loop-IsLeft limit (x ∷ rs) r s w o h =
    taken (turn limit x.now x.sel w) (λ v. main_loop-IsLeft limit rs r s v (polls x.before o) h)
  where
    taken :
        (t : Turn)
        → ((v : Watch) → IsLeft (main_loop limit (until_exit rs r) v (polls x.before o)))
        → IsLeft (
            after_turn
              (polls x.before o)
              t
              (λ v. main_loop limit (until_exit rs r) v (polls x.before o)))
    taken (go_on v) rest = rest v
    taken (leave v e) rest = tt
    taken (bail v e) rest = tt

abbrev IsThere : Option Served → Type 0
IsThere none = ⊥
IsThere (some v) = Unit

after_drain-IsThere :
    (d : Drained) (next : Output → Option Served)
    → ((o : Output) → IsThere (next o))
    → IsOver d
    → IsThere (after_drain d next)
after_drain-IsThere (o, none) next there (b, h) = cc
after_drain-IsThere (o, some true) next there h = there o
after_drain-IsThere (o, some false) next there h = there (abort_pumps o)

-- Every write to standard output behind the drain ends, well or not.
abbrev pub WritesEnd : Closing → Type 0
WritesEnd c = All (λ t. t ≢ never) c.writes × (c.exit_written ≢ never)

flush_queue-ends :
    (ts : List WriteEnd) (q : List EventFrame)
    → All (λ t. t ≢ never) ts
    → (flush_queue ts q).1 ≢ never
unfolding flush_queue
flush_queue-ends ts [] h e = cc
flush_queue-ends [] (f ∷ fs) h e = cc
flush_queue-ends (flushed ∷ ts) (f ∷ fs) (h, hs) e = flush_queue-ends ts fs hs e
flush_queue-ends (refused ∷ ts) (f ∷ fs) h e = cc
flush_queue-ends (never ∷ ts) (f ∷ fs) (h, hs) e = h refl

write_exit-IsThere :
    (t : WriteEnd) (r : ExitReport) (outs : List EventFrame) (files : List Files)
    → t ≢ never
    → IsThere (write_exit t r outs files)
write_exit-IsThere flushed r outs files h = tt
write_exit-IsThere refused r outs files h = tt
write_exit-IsThere never r outs files h = absurd (h refl)

await_writer-IsThere :
    (t : WriteEnd) (o : Option Served) → t ≢ never → IsThere o → IsThere (await_writer t o)
await_writer-IsThere flushed o h there = there
await_writer-IsThere refused o h there = there
await_writer-IsThere never o h there = absurd (h refl)

finish-IsThere :
    (sys : System) (req : ServeExec) (w : Watch) (s : ExitStatus) (c : Closing) (o : Output)
    (fs : Files)
    → WritesEnd c
    → IsThere (finish sys req w s c o fs)
unfolding finish
finish-IsThere sys req w s c o fs (all, last) =
    await_writer-IsThere (flush_queue c.writes o.queue).1 _ (flush_queue-ends c.writes o.queue all)
      (write_exit-IsThere c.exit_written (closing_report w s c) _ _ last)

abbrev pub closing_at : ℕ → List Tick → Closing → Closing
closing_at limit ts c = record c { ticks = at_last limit ts }

after_loop-IsThere :
    (limit : ℕ) (sys : System) (req : ServeExec) (c : Closing) (ts : List Tick) (fs : Files)
    (l : Looped)
    → WritesEnd c
    → IsLeft l
    → IsThere (after_loop limit sys req (closing_at limit ts c) fs l)
after_loop-IsThere limit sys req c ts fs (o, none) end h = h
after_loop-IsThere limit sys req c ts fs (o, some (go_on w)) end h = h
after_loop-IsThere limit sys req c ts fs (o, some (bail w e)) end h = tt
after_loop-IsThere limit sys req c ts fs (o, some (leave w s)) end h =
    after_drain-IsThere (drain_pumps limit c.drain_at (at_last limit ts) (stop_router o)) _
      (λ p.
        finish-IsThere sys req (make_up c.kill_at w.kill_deadline w) s (closing_at limit ts c) p fs
          end)
      (drain_pumps-IsOver limit c.drain_at ts (stop_router o))

execute-IsThere :
    (limit now : ℕ) (sys : System) (req : ServeExec) (child : Child) (rs : List Round) (r : Round)
    (s : ExitStatus) (ts : List Tick) (c : Closing) (fs : Files)
    → r.sel ≡ exit s
    → WritesEnd c
    → IsThere (execute limit now sys req child (until_exit rs r) (closing_at limit ts c) fs)
unfolding execute
execute-IsThere limit now sys req child rs r s ts c fs h end = elim (Bool-cases child.has_id) [
  | inl e ↦ rw e (
      after_loop-IsThere limit sys req c ts fs
        (main_loop limit (until_exit rs r) (start limit now req)
          (new_output child.out_pipe child.err_pipe))
        end
        (main_loop-IsLeft limit rs r s (start limit now req)
          (new_output child.out_pipe child.err_pipe) h))
  | inr e ↦ rw e tt
]

IsThere-Comes :
    (a b : List Got) (o : Option Served)
    → IsThere o
    → Comes a b o
    → (v : Served) × (o ≡ some v) × IsServed a b v
IsThere-Comes a b none there h = absurd there
IsThere-Comes a b (some v) there h = (v, refl, h)

-- When the child exits in some round, the clock goes on to its end and each write to standard output
-- behind the drain ends, well or not, a run comes to its end, whatever the tasks do: neither its
-- loop nor its drain waits for more. The frames on its standard output are frames of output with at
-- most 32 KiB each and answers to pings, in which each pipe has a front of what it brought, in
-- order. Behind them is one report, and nothing else, where the run succeeds; where it bails out of
-- its loop or the report cannot be written there is none.
pub execute-IsServed :
    (limit now : ℕ) (sys : System) (req : ServeExec) (child : Child) (rs : List Round) (r : Round)
    (s : ExitStatus) (ts : List Tick) (c : Closing) (fs : Files)
    → r.sel ≡ exit s
    → WritesEnd c
    → (v : Served) × (execute limit now sys req child (until_exit rs r) (closing_at limit ts c) fs
        ≡ some v)
      × IsServed child.out_pipe child.err_pipe v
execute-IsServed limit now sys req child rs r s ts c fs h end =
    IsThere-Comes child.out_pipe child.err_pipe _
      (execute-IsThere limit now sys req child rs r s ts c fs h end)
      (execute-Comes limit now sys req child (until_exit rs r) (closing_at limit ts c) fs)
