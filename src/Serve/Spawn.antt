-- ===== src/Serve/Spawn.antt =====
-- The descriptors of the child: the `pre_exec` part of `spawn` in crates/sp-serve/src/child.rs. A
-- table of descriptors is a function, changed as POSIX says; which free descriptor `F_DUPFD` takes is
-- a parameter. `setsid` and the clearing of O_NONBLOCK leave the table and are not written out.
pub mod Relocated
pub mod Final
use shell_proxy.Prelude.{
  ℕ, List, [], ◌∷◌, Option, none, some, Bool, true, false, ◌==◌, if◌then◌else◌,
}

-- An open descriptor: its open file description, and whether it is closed on exec.
pub record Descriptor : Type 0 where
  pub file : ℕ
  pub cloexec : Bool

abbrev pub Table : Type 0
Table = ℕ → Option Descriptor

abbrev pub set : ℕ → Option Descriptor → Table → Table
set n d t k = if k == n then d else t k

abbrev pub fd_stderr : ℕ
fd_stderr = 3

abbrev pub fd_rcfile : ℕ
fd_rcfile = 7

abbrev pub fd_cmd : ℕ
fd_cmd = 8

abbrev pub fd_restore : ℕ
fd_restore = 9

abbrev pub fd_cwd : ℕ
fd_cwd = 10

abbrev pub fd_dump : ℕ
fd_dump = 11

abbrev pub kept : Descriptor → Descriptor
kept d = record d { cloexec = false }

-- `dup2`: a descriptor that is not open is an error; onto itself it changes nothing.
abbrev pub duplicate : Option Descriptor → ℕ → Table → Option Table
duplicate none dst t = none
duplicate (some d) dst t = some (set dst (some (kept d)) t)

abbrev pub dup2 : ℕ → ℕ → Table → Option Table
dup2 src dst t =
    if src == dst then (elim (t src) [ none ↦ none | some d ↦ some t ]) else duplicate (t src) dst t

-- `fcntl(src, F_DUPFD, floor)`, where the kernel takes `fresh t`, if the table has room.
abbrev pub park_at : Option Descriptor → Option ℕ → Table → Option (ℕ × Table)
park_at none n t = none
park_at (some d) none t = none
park_at (some d) (some n) t = some (n, set n (some (kept d)) t)

abbrev pub dup_fd : (Table → Option ℕ) → ℕ → Table → Option (ℕ × Table)
dup_fd fresh src t = park_at (t src) (fresh t) t

abbrev pub and_then : {A B : Type 0} → Option A → (A → Option B) → Option B
and_then none f = none
and_then (some a) f = f a

-- The loop that parks the sources.
unfoldable pub park : (Table → Option ℕ) → List ℕ → Table → Option (List ℕ × Table)
park fresh [] t = some ([], t)
park fresh (s ∷ ss) t =
    and_then (dup_fd fresh s t) (λ p. and_then (park fresh ss p.1) (λ q. some (p.0 ∷ q.0, q.1)))

-- The loop that moves parked descriptors to their targets.
unfoldable pub relocate : List ℕ → List ℕ → Table → Option Table
relocate [] dsts t = some t
relocate (p ∷ ps) [] t = some t
relocate (p ∷ ps) (d ∷ ds) t = and_then (dup2 p d t) (relocate ps ds)

unfoldable pub close_all : List ℕ → Table → Table
close_all [] t = t
close_all (p ∷ ps) t = close_all ps (set p none t)

-- `F_SETFD` with no flags.
abbrev pub clear : Option Descriptor → ℕ → Table → Option Table
clear none n t = none
clear (some d) n t = some (set n (some (kept d)) t)

unfoldable pub clear_flags : List ℕ → Table → Option Table
clear_flags [] t = some t
clear_flags (n ∷ ns) t = and_then (clear (t n) n t) (clear_flags ns)

-- The sources of the child's pipes and memory files.
pub record Sources : Type 0 where
  pub in_fd : ℕ
  pub out_fd : ℕ
  pub err_fd : ℕ
  pub rc_fd : ℕ
  pub cmd_fd : ℕ
  pub restore_fd : ℕ
  pub pwd_fd : ℕ
  pub dump_fd : ℕ

abbrev pub sources : Sources → List ℕ
sources s = s.err_fd ∷ s.rc_fd ∷ s.cmd_fd ∷ s.restore_fd ∷ s.pwd_fd ∷ s.dump_fd ∷ []

abbrev pub targets : List ℕ
targets = fd_stderr ∷ fd_rcfile ∷ fd_cmd ∷ fd_restore ∷ fd_cwd ∷ fd_dump ∷ []

abbrev pub swept : List ℕ
swept = fd_rcfile ∷ fd_cmd ∷ fd_restore ∷ fd_stderr ∷ fd_cwd ∷ fd_dump ∷ []

unfoldable pub pre_exec : (Table → Option ℕ) → Sources → Table → Option Table
unfolding park relocate close_all clear_flags
pre_exec fresh s t = and_then (dup2 s.in_fd 0 t) (λ t. and_then (dup2 s.out_fd 1 t) (λ t.
    and_then (park fresh (sources s) t)
      (λ p. and_then (relocate p.0 targets p.1) (λ u. clear_flags swept (close_all p.0 u)))))
