-- ===== src/Serve/Output/Drained.antt =====
-- The drain of the pumps, and the end of the writer behind it.
use shell_proxy.Prelude.{
  ℕ, ◌≡◌, refl, ap, subst, ◌∙◌, Bool, true, false, Bool-cases, inl, inr, List, [], ◌∷◌, ◌++◌,
  Option, none, some, ltb, leb, append-nil, arith, ◌⊎◌, ◌≢◌,
}
use shell_proxy.Proto.Frame.{Bytes, EventFrame, stdout, stderr}
use shell_proxy.Serve.Watch.{checked_add}
use shell_proxy.Serve.Output.{
  Pump, reading, sending, finished, Output, turn_pump, Poll, poll_out, poll_err, poll_writer, ping,
  poll, polls, Drain, Look, out_ended, err_ended, changed, stalled, Tick, task, branch, look,
  with_deadline, Drained, after_look, all_done, drain_loop, from_deadline, first_drain, drain_pumps,
  drain_grace, WriteEnd, flushed, refused, never, flush_queue, is_finished,
}
use shell_proxy.Serve.Output.Order.{writer_pumps, answer_pumps}

-- What each turn keeps is kept by any schedule of turns, and by the drain.
module _ (P : Output → Type 0) (step : (p : Poll) (o : Output) → P o → P (poll p o)) where
  pub polls-keeps : (ps : List Poll) (o : Output) → P o → P (polls ps o)
  unfolding polls
  polls-keeps [] o h = h
  polls-keeps (p ∷ ps) o h = polls-keeps ps (poll p o) (step p o h)

  after_look-keeps :
      (o : Output) (r : Drain ⊎ Bool) (next : Drain → Drained)
      → P o
      → ((d : Drain) → P (next d).0)
      → P (after_look o r next).0
  after_look-keeps o (inl d) next h all = all d
  after_look-keeps o (inr b) next h all = h

  drain_loop-keeps :
      (limit : ℕ) (ts : List Tick) (o : Output) (d : Drain) → P o → P (drain_loop limit ts o d).0
  unfolding drain_loop
  drain_loop-keeps limit [] o d h = h
  drain_loop-keeps limit (task p ∷ ts) o d h = elim (Bool-cases (all_done d)) [
    | inl done ↦ rw done h
    | inr more ↦ rw more (drain_loop-keeps limit ts (poll p o) d (step p o h))
  ]
  drain_loop-keeps limit (branch now l ∷ ts) o d h = elim (Bool-cases (all_done d)) [
    | inl done ↦ rw done h
    | inr more ↦ rw more (
        after_look-keeps o (look limit now l o d) (drain_loop limit ts o) h
          (λ e. drain_loop-keeps limit ts o e h))
  ]

  pub drain_pumps-keeps :
      (limit now : ℕ) (ts : List Tick) (o : Output) → P o → P (drain_pumps limit now ts o).0
  unfolding drain_pumps
  drain_pumps-keeps limit now ts o h = from (checked_add limit now drain_grace)
    where
      from : (at : Option ℕ) → P (from_deadline at limit ts o).0
      from none = h
      from (some at) = drain_loop-keeps limit ts o (first_drain at) h

-- A pump that the drain has seen end stays at its end.
abbrev IsSeen : Drain → Output → Type 0
IsSeen d o =
    (d.out_done ≡ true → o.out_pump ≡ finished) × (d.err_done ≡ true → o.err_pump ≡ finished)

finished_stays :
    (mk : Bytes → EventFrame) (alive : Bool) (q : List EventFrame) (p : Pump)
    → p ≡ finished
    → (turn_pump mk alive q p).0 ≡ finished
unfolding turn_pump
finished_stays mk alive q p h = rw h refl

poll-IsSeen : (d : Drain) (p : Poll) (o : Output) → IsSeen d o → IsSeen d (poll p o)
unfolding poll
poll-IsSeen d poll_out o (out, err) =
    ((λ h. finished_stays stdout o.writer_alive o.queue o.out_pump (out h)), err)
poll-IsSeen d poll_err o (out, err) =
    (out, (λ h. finished_stays stderr o.writer_alive o.queue o.err_pump (err h)))
poll-IsSeen d (poll_writer b) o (out, err) =
    let (eo, ee) = writer_pumps b o.queue o in ((λ h. eo ∙ out h), (λ h. ee ∙ err h))
poll-IsSeen d (ping p) o (out, err) =
    let (eo, ee) = answer_pumps p o in ((λ h. eo ∙ out h), (λ h. ee ∙ err h))

is_finished_eq : (p : Pump) → is_finished p ≡ true → p ≡ finished
is_finished_eq finished h = refl
is_finished_eq (reading rs) h = cc
is_finished_eq (sending f rs) h = cc

with_deadline-IsSeen :
    (at : Option ℕ) (seen : ℕ) (o : Output) (d e : Drain)
    → with_deadline at seen d ≡ inl e
    → IsSeen d o
    → IsSeen e o
with_deadline-IsSeen none seen o d e h s = cc
with_deadline-IsSeen (some at) seen o d e h s =
    let same : record d { stop_at = at; seen = seen } ≡ e = cc in subst (λ x. IsSeen x o) same s

same-IsSeen :
    (o : Output) (d e : Drain) → ◌≡◌ {A = Drain ⊎ Bool} (inl d) (inl e) → IsSeen d o → IsSeen e o
same-IsSeen o d e h s = let same : d ≡ e = cc in subst (λ x. IsSeen x o) same s

look-IsSeen :
    (limit now : ℕ) (l : Look) (o : Output) (d e : Drain)
    → look limit now l o d ≡ inl e
    → IsSeen d o
    → IsSeen e o
unfolding look
look-IsSeen limit now out_ended o d e h (out, err) = elim (Bool-cases (is_finished o.out_pump)) [
  | inl ended ↦
      same-IsSeen o (record d { out_done = true }) e (rw ended at h)
        ((λ _. is_finished_eq o.out_pump ended), err)
  | inr open_still ↦ same-IsSeen o d e (rw open_still at h) (out, err)
]
look-IsSeen limit now err_ended o d e h (out, err) = elim (Bool-cases (is_finished o.err_pump)) [
  | inl ended ↦
      same-IsSeen o (record d { err_done = true }) e (rw ended at h)
        (out, (λ _. is_finished_eq o.err_pump ended))
  | inr open_still ↦ same-IsSeen o d e (rw open_still at h) (out, err)
]
look-IsSeen limit now changed o d e h s = elim (Bool-cases (ltb d.seen o.progress)) [
  | inl new ↦
      with_deadline-IsSeen (checked_add limit now drain_grace) o.progress o d e (rw new at h) s
  | inr old ↦ elim (Bool-cases o.writer_alive) [
    | inl alive ↦ same-IsSeen o d e (rw (old, alive) at h) s
    | inr gone ↦ let wrong : ◌≡◌ {A = Drain ⊎ Bool} (inr false) (inl e) = rw (old, gone) at h in cc
  ]
]
look-IsSeen limit now stalled o d e h s = elim (Bool-cases (leb d.stop_at now)) [
  | inl over ↦ let wrong : ◌≡◌ {A = Drain ⊎ Bool} (inr false) (inl e) = rw over at h in cc
  | inr early ↦ same-IsSeen o d e (rw early at h) s
]

with_deadline_never_true :
    (at : Option ℕ) (seen : ℕ) (d : Drain) → with_deadline at seen d ≢ inr true
with_deadline_never_true none seen d h = cc
with_deadline_never_true (some at) seen d h = cc

look_never_true :
    (limit now : ℕ) (l : Look) (o : Output) (d : Drain) → look limit now l o d ≢ inr true
unfolding look
look_never_true limit now out_ended o d h = cc
look_never_true limit now err_ended o d h = cc
look_never_true limit now changed o d h = elim (Bool-cases (ltb d.seen o.progress)) [
  | inl new ↦
      with_deadline_never_true (checked_add limit now drain_grace) o.progress d (rw new at h)
  | inr old ↦ elim (Bool-cases o.writer_alive) [
    | inl alive ↦ let wrong : ◌≡◌ {A = Drain ⊎ Bool} (inl d) (inr true) = rw (old, alive) at h in cc
    | inr gone ↦
        let wrong : ◌≡◌ {A = Drain ⊎ Bool} (inr false) (inr true) = rw (old, gone) at h in cc
  ]
]
look_never_true limit now stalled o d h = elim (Bool-cases (leb d.stop_at now)) [
  | inl over ↦ let wrong : ◌≡◌ {A = Drain ⊎ Bool} (inr false) (inr true) = rw over at h in cc
  | inr early ↦ let wrong : ◌≡◌ {A = Drain ⊎ Bool} (inl d) (inr true) = rw early at h in cc
]

abbrev pub BothEnded : Output → Type 0
BothEnded o = (o.out_pump ≡ finished) × (o.err_pump ≡ finished)

all_done-BothEnded : (d : Drain) (o : Output) → all_done d ≡ true → IsSeen d o → BothEnded o
all_done-BothEnded d o h (out, err) = (out (ground arith), err (ground arith))

abbrev HasEnded : Drained → Type 0
HasEnded (o, r) = r ≡ some true → BothEnded o

after_look-HasEnded :
    (o : Output) (d : Drain) (r : Drain ⊎ Bool) (next : Drain → Drained)
    → r ≢ inr true
    → ((e : Drain) → r ≡ inl e → HasEnded (next e))
    → HasEnded (after_look o r next)
after_look-HasEnded o d (inl e) next open_one rest = rest e refl
after_look-HasEnded o d (inr b) next open_one rest =
    λ h. let yes_b : b ≡ true = cc in absurd (open_one (ap inr yes_b))

drain_loop-HasEnded :
    (limit : ℕ) (ts : List Tick) (o : Output) (d : Drain)
    → IsSeen d o
    → HasEnded (drain_loop limit ts o d)
unfolding drain_loop
drain_loop-HasEnded limit [] o d s = λ h. elim (Bool-cases (all_done d)) [
  | inl done ↦ all_done-BothEnded d o done s
  | inr more ↦ let wrong : ◌≡◌ {A = Option Bool} none (some true) = rw more at h in cc
]
drain_loop-HasEnded limit (task p ∷ ts) o d s = elim (Bool-cases (all_done d)) [
  | inl done ↦ rw done (λ h. all_done-BothEnded d o done s)
  | inr more ↦ rw more (drain_loop-HasEnded limit ts (poll p o) d (poll-IsSeen d p o s))
]
drain_loop-HasEnded limit (branch now l ∷ ts) o d s = elim (Bool-cases (all_done d)) [
  | inl done ↦ rw done (λ h. all_done-BothEnded d o done s)
  | inr more ↦ rw more (
      after_look-HasEnded o d (look limit now l o d) (drain_loop limit ts o)
        (look_never_true limit now l o d)
        (λ e same. drain_loop-HasEnded limit ts o e (look-IsSeen limit now l o d e same s)))
]

-- Both pumps are at their end when the drain says so.
pub drain_pumps-BothEnded :
    (limit now : ℕ) (ts : List Tick) (o : Output)
    → (drain_pumps limit now ts o).1 ≡ some true
    → BothEnded (drain_pumps limit now ts o).0
unfolding drain_pumps
drain_pumps-BothEnded limit now ts o = from (checked_add limit now drain_grace)
  where
    from : (at : Option ℕ) → HasEnded (from_deadline at limit ts o)
    from none = λ h. cc
    from (some at) = drain_loop-HasEnded limit ts o (first_drain at) ((λ h. cc), (λ h. cc))

-- The writer behind the last sender writes a front of the queue, and all of it if each write ends well.
pub flush_queue_front :
    (bs : List WriteEnd) (q : List EventFrame)
    → (rest : List EventFrame) × ((flush_queue bs q).0 ++ rest ≡ q)
unfolding flush_queue
flush_queue_front bs [] = ([], refl)
flush_queue_front [] (f ∷ fs) = ([], append-nil (f ∷ fs))
flush_queue_front (flushed ∷ bs) (f ∷ fs) =
    let (rest, h) = flush_queue_front bs fs in (rest, ap (λ x. f ∷ x) h)
flush_queue_front (refused ∷ bs) (f ∷ fs) = (f ∷ fs, refl)
flush_queue_front (never ∷ bs) (f ∷ fs) = (f ∷ fs, refl)

pub flush_queue_all :
    (bs : List WriteEnd) (q : List EventFrame)
    → (flush_queue bs q).1 ≡ flushed
    → (flush_queue bs q).0 ≡ q
unfolding flush_queue
flush_queue_all bs [] h = refl
flush_queue_all [] (f ∷ fs) h = refl
flush_queue_all (flushed ∷ bs) (f ∷ fs) h = ap (λ x. f ∷ x) (flush_queue_all bs fs h)
flush_queue_all (refused ∷ bs) (f ∷ fs) h = cc
flush_queue_all (never ∷ bs) (f ∷ fs) h = cc
