-- ===== src/Serve/Tests.antt =====
-- The loop and the report pipes of crates/sp-serve/src/serve.rs at concrete inputs.
use shell_proxy.Prelude.{
  is_utf8, ℕ, ◌≤◌, ◌≡◌, refl, true, false, List, [], ◌∷◌, ◌++◌, Option, none, some, arith,
  if◌then◌else◌, leb, ltb, ◌&&◌, Option-cases, subst, inl, inr, codes, map, All, ok,
}
use shell_proxy.Serve.State.{Files, System, load_state, save_state}
use shell_proxy.Serve.State.Atomic.{IsRead, save_state-IsRead}
use shell_proxy.Serve.Pipe.{bytes, read_pipe}
use shell_proxy.Serve.Pipe.Report.{read_pipe-report}
use shell_proxy.Proto.Frame.{Bytes, int, term, kill, ServeExec, timeout_exit_code}
use shell_proxy.Serve.Watch.{
  signal, closed, ctrl, timeout, transport_closed, Watch, start, bail, send, turn, Loop, here, next,
  make_up, positive, deadline, exit, exited, report_code,
}
use shell_proxy.Serve.Watch.Escalation.{IsEscalated, timeout_escalates}
use shell_proxy.Proto.Frame
use shell_proxy.Proto.Frame.{stdin_data}
use shell_proxy.Serve.Output.Pumps.{IsPrefix}
use shell_proxy.Serve.Input.{
  Arrival, frame, ended, broken, Turn, router_turn, signal_turn, pump_turn, loop_turn, new_input,
  turns,
}
use shell_proxy.Serve.Input.Order.{input_of, Feeds, turns-input_of}
use shell_proxy.Serve.Spawn.{Descriptor, Table, Sources, set, sources, targets, pre_exec}
use shell_proxy.Serve.Spawn.Relocated.{HasRoom, Delivered}
use shell_proxy.Serve.Spawn.Final.{IsSource, AreSources, pre_exec-Gets}
use shell_proxy.Serve.Watch.Outcome.{bail_kills}

abbrev request : Option ℕ → ServeExec
request ms = record {
  session = codes "default";
  command = codes "sleep 99";
  args = [];
  cwd = none;
  timeout_ms = ms;
}

abbrev limit : ℕ
limit = 1000000000

-- A command started at 100 with a timeout of 1000 ms.
abbrev started : Watch
started = start limit 100 (request (some 1000))

abbrev after_term : Watch
after_term = record {
  term_deadline = none;
  kill_deadline = some 6100;
  timed_out = true;
  ctrl_open = true;
  dead_done = false;
  sent = (500, int) ∷ (1100, term) ∷ [];
}

abbrev after_kill : Watch
after_kill = record {
  term_deadline = none;
  kill_deadline = none;
  timed_out = true;
  ctrl_open = true;
  dead_done = false;
  sent = (500, int) ∷ (1100, term) ∷ (6101, kill) ∷ [];
}

termed : Loop limit started after_term
unfolding turn start deadline
termed = next 1100 timeout (next 500 (ctrl (some (signal int))) here refl refl) (omega arith) refl

shot : Loop limit started after_kill
unfolding turn start deadline
shot = next 6101 timeout termed (omega arith) refl

timeout_escalates_example :
    IsEscalated limit
      (start limit 100 (request (some 1000))).term_deadline
      (make_up 2000 (some 6100) after_term).sent
    × (report_code (make_up 2000 (some 6100) after_term) (exited 0) ≡ timeout_exit_code)
timeout_escalates_example =
    timeout_escalates limit 100 1990 2000 (request (some 1000)) (exit (exited 0)) after_term
      after_term (exited 0) termed (unfold turn in refl) refl

zero_is_none : positive (some 0) ≡ none
unfolding positive
zero_is_none = refl

closes : turn limit 900 (ctrl (some closed)) started ≡ bail (send 900 kill started) transport_closed
unfolding turn
closes = refl

bail_kills_example : (send 900 kill started).sent ≡ started.sent ++ (900, kill) ∷ []
bail_kills_example =
    bail_kills limit 900 (ctrl (some closed)) started (send 900 kill started) transport_closed
      closes (λ e. cc)

-- A path in two reads, with output of another job behind its terminator.
abbrev path_reads : List Bytes
path_reads = (47 ∷ 104 ∷ []) ∷ (111 ∷ 0 ∷ 9 ∷ []) ∷ (8 ∷ []) ∷ []

path_valid : is_utf8 (47 ∷ 104 ∷ 111 ∷ []) ≡ true
unfolding is_utf8
path_valid = refl

read_pipe-report_example : read_pipe 8192 (map bytes path_reads) ≡ some (47 ∷ 104 ∷ 111 ∷ [])
read_pipe-report_example =
    read_pipe-report 8192 path_reads (47 ∷ 104 ∷ 111 ∷ []) (9 ∷ 8 ∷ [])
      ((λ e. cc), ((λ e. cc), ((λ e. cc), tt))) ((λ e. cc), ((λ e. cc), ((λ e. cc), tt))) refl
      (λ e. cc) path_valid (omega arith)

-- A report above the cap passes when its terminator comes in the same read.
over_cap : read_pipe 1 (bytes (97 ∷ 98 ∷ 0 ∷ []) ∷ []) ≡ some (97 ∷ 98 ∷ [])
unfolding read_pipe
over_cap = refl

-- A surrogate is no UTF-8.
no_surrogate : is_utf8 (0xed ∷ 0xa0 ∷ 0x80 ∷ []) ≡ false
unfolding is_utf8
no_surrogate = refl

abbrev two_letters : Bytes
two_letters = 97 ∷ 98 ∷ []

abbrev sample_system : System
sample_system = record {
  home = some (codes "/h");
  pid = codes "7";
  readable = true;
  creates_dir = true;
  sets_mode = true;
  opens = true;
  while_writing = (97 ∷ []) ∷ [];
  writes = true;
  renames = true;
  removes = true;
}

abbrev sample_files : Files
sample_files = (codes "/h/.local/share/shell-proxy/sessions/s.state", 111 ∷ []) ∷ []

-- The old state until the rename, then the new one.
sample_save :
    map
      (load_state sample_system (codes "s"))
      (save_state sample_system (codes "s") (97 ∷ 98 ∷ []) sample_files)
    ≡ ok (some (111 ∷ []))
      ∷ ok (some (111 ∷ []))
      ∷ ok (some (111 ∷ []))
      ∷ ok (some (111 ∷ []))
      ∷ ok (some (97 ∷ 98 ∷ []))
      ∷ []
unfolding load_state save_state
sample_save = refl

save_state-IsRead_example :
    All
      (IsRead sample_system (codes "s") (97 ∷ 98 ∷ []) sample_files)
      (save_state sample_system (codes "s") (97 ∷ 98 ∷ []) sample_files)
unfolding is_utf8
save_state-IsRead_example =
    save_state-IsRead sample_system (codes "s") (97 ∷ 98 ∷ []) sample_files (refl, refl)

abbrev opened_at : ℕ → Option Descriptor
opened_at n = some record { file = n; cloexec = true }

-- The free descriptors of the parent were 3 to 10.
abbrev crossed_table : Table
crossed_table n = if leb 3 n && ltb n 11 then opened_at n else none

-- Four of the six sources stand in a target of another.
abbrev crossed : Sources
crossed = record {
  in_fd = 4;
  out_fd = 5;
  err_fd = 7;
  rc_fd = 8;
  cmd_fd = 9;
  restore_fd = 10;
  pwd_fd = 3;
  dump_fd = 6;
}

-- The first free descriptor of some.
first_free : List ℕ → Table → Option ℕ
first_free [] t = none
first_free (n ∷ ns) t = elim (t n) [ none ↦ some n | some d ↦ first_free ns t ]

first_free_is_free :
    (ns : List ℕ) (t : Table) (n : ℕ)
    → All (λ k. 12 ≤ k) ns
    → first_free ns t ≡ some n
    → (12 ≤ n) × (t n ≡ none)
unfolding first_free
first_free_is_free [] t n h e = absurd (cc e)
first_free_is_free (k ∷ ns) t n (above, h) e = elim (Option-cases (t k)) [
  | inl free ↦
      let found : some k ≡ some n = rw (free, first_free) at e in
      let same : k ≡ n = cc in (subst (λ m. 12 ≤ m) same above, subst (λ m. t m ≡ none) same free)
  | inr (d, taken) ↦ first_free_is_free ns t n h (rw (taken, first_free) at e)
]

abbrev scratch : List ℕ
scratch = 12 ∷ 13 ∷ 14 ∷ 15 ∷ 16 ∷ 17 ∷ []

scratch_above : All (λ k. 12 ≤ k) scratch
scratch_above =
    (omega arith, (omega arith, (omega arith, (omega arith, (omega arith, (omega arith, tt))))))

crossed-HasRoom :
    (a b : Descriptor)
    → HasRoom (first_free scratch) (sources crossed) (set 1 (some b) (set 0 (some a) crossed_table))
unfolding first_free
crossed-HasRoom a b = (
  12,
  refl,
  (λ d. (
    13,
    refl,
    (λ d. (14, refl, (λ d. (15, refl, (λ d. (16, refl, (λ d. (17, refl, (λ d. tt))))))))),
  )),
)

open-IsSource : (n : ℕ) → 3 ≤ n → crossed_table n ≡ opened_at n → IsSource crossed_table n
open-IsSource n above at = (above, (record { file = n; cloexec = true }, at))

crossed-AreSources : AreSources crossed_table crossed
crossed-AreSources = (
  open-IsSource 4 (omega arith) refl,
  open-IsSource 5 (omega arith) refl,
  (
    open-IsSource 7 (omega arith) refl,
    (
      open-IsSource 8 (omega arith) refl,
      (
        open-IsSource 9 (omega arith) refl,
        (
          open-IsSource 10 (omega arith) refl,
          (open-IsSource 3 (omega arith) refl, (open-IsSource 6 (omega arith) refl, tt)),
        ),
      ),
    ),
  ),
)

pre_exec-Gets_example :
    (u : Table) × (pre_exec (first_free scratch) crossed crossed_table ≡ some u)
    × Delivered crossed_table u (4 ∷ 5 ∷ sources crossed) (0 ∷ 1 ∷ targets)
pre_exec-Gets_example =
    pre_exec-Gets (first_free scratch) (λ t n e. first_free_is_free scratch t n scratch_above e)
      crossed crossed_table crossed-AreSources crossed-HasRoom

-- The child has closed its input, more of it comes, and then a KILL and the end of the transport. The
-- KILL is not heard; a TERM that sp-serve itself catches is.
abbrev unread : List Arrival
unread =
    frame (stdin_data (1 ∷ []))
    ∷ frame (stdin_data (2 ∷ []))
    ∷ frame (Frame.signal kill)
    ∷ ended
    ∷ []

abbrev to_broken : List Turn
to_broken = router_turn ∷ router_turn ∷ pump_turn (broken 0) ∷ router_turn ∷ []

kill_unheard :
    (turns
      (to_broken
        ++ router_turn ∷ router_turn ∷ loop_turn ∷ router_turn ∷ signal_turn ∷ loop_turn ∷ [])
      (new_input unread (term ∷ []))).heard
    ≡ signal term ∷ []
unfolding turns
kill_unheard = refl

turns-input_of_example :
    IsPrefix (turns to_broken (new_input unread (term ∷ []))).child_in (input_of unread)
    × Feeds (input_of unread) (turns to_broken (new_input unread (term ∷ [])))
turns-input_of_example = turns-input_of unread (term ∷ []) to_broken
