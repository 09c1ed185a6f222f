-- ===== src/Serve/Output/Whole.antt =====
-- The output of a command arrives whole where each write ends well and the drain ends in time.
use shell_proxy.Prelude.{ℕ, ◌++◌, ◌≡◌, refl, sym, ◌∙◌, Bool, true, List, some, append-nil}
use shell_proxy.Proto.Frame.{Bytes, EventFrame}
use shell_proxy.Serve.Pipe.{Got}
use shell_proxy.Serve.Output.{
  Pump, finished, Output, new_output, Poll, polls, Tick, drain_pumps, WriteEnd, flushed,
  flush_queue,
}
use shell_proxy.Serve.Output.Pumps.{content, of_stdout, of_stderr, bytes_of, left, Kept}
use shell_proxy.Serve.Output.Order.{KeepsOut, KeepsErr, poll-KeepsOut, poll-KeepsErr}
use shell_proxy.Serve.Output.Drained.{
  polls-keeps, drain_pumps-keeps, drain_pumps-BothEnded, flush_queue_all,
}

whole :
    (part : EventFrame → Bytes) (alive : Bool) (w q g : List EventFrame) (p : Pump) (total : Bytes)
    → alive ≡ true
    → p ≡ finished
    → g ≡ q
    → Kept alive (bytes_of part (w ++ q)) (left part p) total
    → bytes_of part (w ++ g) ≡ total
whole part alive w q g p total ha hp hg h =
    let kept : Kept true (bytes_of part (w ++ q)) (left part finished) total = rw (ha, hp) at h in
    rw hg (sym (append-nil (bytes_of part (w ++ q))) ∙ kept)

-- The frames that the tasks and then the writer behind them have put on standard output.
abbrev pub all_frames : ℕ → ℕ → List Tick → List WriteEnd → Output → List EventFrame
all_frames limit now ts writes o =
    (drain_pumps limit now ts o).0.written
    ++ (flush_queue writes (drain_pumps limit now ts o).0.queue).0

-- Whatever the schedule, when the drain answers that both pumps are done and each write went well, the
-- frames on standard output hold all that the child's two pipes brought, each in its order.
pub drain_pumps-content :
    (limit now : ℕ) (a b : List Got) (ps : List Poll) (ts : List Tick) (writes : List WriteEnd)
    → (drain_pumps limit now ts (polls ps (new_output a b))).1 ≡ some true
    → (drain_pumps limit now ts (polls ps (new_output a b))).0.writer_alive ≡ true
    → (flush_queue writes (drain_pumps limit now ts (polls ps (new_output a b))).0.queue).1
      ≡ flushed
    → (bytes_of of_stdout (all_frames limit now ts writes (polls ps (new_output a b))) ≡ content a)
      × (bytes_of of_stderr (all_frames limit now ts writes (polls ps (new_output a b)))
          ≡ content b)
drain_pumps-content limit now a b ps ts writes done alive well =
    let o = polls ps (new_output a b) in
    let d = (drain_pumps limit now ts o).0 in
    let (out_end, err_end) = drain_pumps-BothEnded limit now ts o done in
    let out = drain_pumps-keeps (KeepsOut (content a)) (poll-KeepsOut (content a)) limit now ts o (
      polls-keeps (KeepsOut (content a)) (poll-KeepsOut (content a)) ps (new_output a b)
        (refl, tt)) in
    let errs = drain_pumps-keeps (KeepsErr (content b)) (poll-KeepsErr (content b)) limit now ts o (
      polls-keeps (KeepsErr (content b)) (poll-KeepsErr (content b)) ps (new_output a b)
        (refl, tt)) in
    let all = flush_queue_all writes d.queue well in
    (
      whole of_stdout d.writer_alive d.written d.queue _ d.out_pump (content a) alive out_end all
          out.0,
      whole of_stderr d.writer_alive d.written d.queue _ d.err_pump (content b) alive err_end all
          errs.0,
    )
