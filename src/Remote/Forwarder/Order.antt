-- ===== src/Remote/Forwarder/Order.antt =====
-- The order in which the forwarder of src/remote.rs writes the input of a command.
use shell_proxy.Prelude.{
  ◌≡◌, refl, sym, ap, subst, ◌∙◌, ◌⊎◌, inl, inr, List, [], ◌∷◌, ◌++◌, append_assoc, append-nil, All,
  All-append, Bool, true, false, Bool-cases, if◌then◌else◌,
}
use shell_proxy.Proto.Frame.{
  Signal, ServeExec, ExecFrame, exec, stdin_data, stdin_eof, signal, ping,
}
use shell_proxy.Daemon.Route.{StdinEvent, input, input_eof}
use shell_proxy.Remote.Forwarder.{
  Sent, done, refused, cancelled, Forward, Round, opened, more, or_closed, arrive, stop,
  write_frame, write_eof, take_stdin, select_open, shutdown_wins, take_signal, poll, round, rounds,
}

abbrev Frames : Type 0
Frames = List (ExecFrame ServeExec)

-- The input among the frames.
unfoldable pub stdin_of : List (ExecFrame ServeExec) → List StdinEvent
stdin_of [] = []
stdin_of (exec e ∷ fs) = stdin_of fs
stdin_of (stdin_data d ∷ fs) = input d ∷ stdin_of fs
stdin_of (stdin_eof ∷ fs) = input_eof ∷ stdin_of fs
stdin_of (signal s ∷ fs) = stdin_of fs
stdin_of (ping ∷ fs) = stdin_of fs

stdin_of-append : (fs gs : Frames) → stdin_of (fs ++ gs) ≡ stdin_of fs ++ stdin_of gs
unfolding stdin_of
stdin_of-append [] gs = refl
stdin_of-append (exec e ∷ fs) gs = stdin_of-append fs gs
stdin_of-append (stdin_data d ∷ fs) gs = ap (λ x. input d ∷ x) (stdin_of-append fs gs)
stdin_of-append (stdin_eof ∷ fs) gs = ap (λ x. input_eof ∷ x) (stdin_of-append fs gs)
stdin_of-append (signal s ∷ fs) gs = stdin_of-append fs gs
stdin_of-append (ping ∷ fs) gs = stdin_of-append fs gs

-- What arrives on the lane of the input, until it is closed.
abbrev pub new_input : Bool → Round → List StdinEvent
new_input true r = []
new_input false r = r.more_stdin

unfoldable pub arrived : Bool → List Round → List StdinEvent
arrived closed [] = []
arrived closed (r ∷ rs) = new_input closed r ++ arrived (or_closed closed r.close_stdin) rs

-- An end of the input stands behind all data.
abbrev pub IsInput : List StdinEvent → Type 0
IsInput [] = Unit
IsInput (input d ∷ es) = IsInput es
IsInput (input_eof ∷ es) = es ≡ []

abbrev IsData : StdinEvent → Type 0
IsData (input d) = Unit
IsData input_eof = ⊥

-- While the input is read, nothing of it is lost.
abbrev pub IsReading : Bool → Forward → List StdinEvent → Type 0
IsReading closed f came =
    (f.running ≡ true)
    × (f.stdin_open ≡ true)
    × (f.stdin_closed ≡ closed)
    × All IsData (stdin_of f.frames)
    × (stdin_of f.frames ++ f.stdin ≡ came)

abbrev pub IsOver : Forward → List StdinEvent → Type 0
IsOver f came =
    ((f.running ≡ false) ⊎ (f.stdin_open ≡ false))
    × IsInput (stdin_of f.frames)
    × ((rest : List StdinEvent) × (stdin_of f.frames ++ rest ≡ came))

abbrev pub IsOrdered : Bool → Forward → List StdinEvent → Type 0
IsOrdered closed f came = IsReading closed f came ⊎ IsOver f came

data-IsInput : (es : List StdinEvent) → All IsData es → IsInput es
data-IsInput [] h = tt
data-IsInput (input d ∷ es) (h, hs) = data-IsInput es hs
data-IsInput (input_eof ∷ es) (h, hs) = absurd h

eof-IsInput : (es : List StdinEvent) → All IsData es → IsInput (es ++ input_eof ∷ [])
eof-IsInput [] h = refl
eof-IsInput (input d ∷ es) (h, hs) = eof-IsInput es hs
eof-IsInput (input_eof ∷ es) (h, hs) = absurd h

-- One poll of a forwarder that reads, with the lane `es` of the input.
module _ (r : Round) (closed : Bool) (f : Forward) (came : List StdinEvent)
    (running : f.running ≡ true) (reading : f.stdin_open ≡ true) (shut : f.stdin_closed ≡ closed)
    (plain : All IsData (stdin_of f.frames)) where
  stop-IsOver :
      (es rest : List StdinEvent)
      → stdin_of f.frames ++ rest ≡ came
      → IsOver (stop (record f { stdin = es })) came
  stop-IsOver es rest h = (inl refl, data-IsInput (stdin_of f.frames) plain, (rest, h))

  signal-IsOrdered :
      (s : Signal) (ss : List Signal) (w : Sent)
      → stdin_of f.frames ++ f.stdin ≡ came
      → IsOrdered closed (write_frame (signal s) w (record f { signals = ss })) came
  unfolding stdin_of
  signal-IsOrdered s ss done h =
      let same : stdin_of (f.frames ++ signal s ∷ []) ≡ stdin_of f.frames =
        stdin_of-append f.frames (signal s ∷ []) ∙ append-nil _ in
      inl (running, reading, shut, rw same plain, rw same h)
  signal-IsOrdered s ss refused h = inr (stop-IsOver f.stdin f.stdin h)
  signal-IsOrdered s ss cancelled h = inr (stop-IsOver f.stdin f.stdin h)

  stdin-IsOrdered :
      (es : List StdinEvent) (c : Bool)
      → stdin_of f.frames ++ es ≡ came
      → IsOrdered closed (take_stdin r es c (record f { stdin = es })) came
  unfolding stdin_of
  stdin-IsOrdered [] true h = inr (inr refl, data-IsInput (stdin_of f.frames) plain, ([], h))
  stdin-IsOrdered [] false h = elim (Bool-cases r.shutdown) [
    | inl e ↦ rw e (inr (stop-IsOver [] [] h))
    | inr e ↦ rw e (inl (running, reading, shut, plain, h))
  ]
  stdin-IsOrdered (input d ∷ es) c h = data_written r.write
    where
      data_written :
          (w : Sent)
          → IsOrdered closed (write_frame (stdin_data d) w (record f { stdin = es })) came
      data_written done =
          let same = stdin_of-append f.frames (stdin_data d ∷ []) in
          inl (
            running,
            reading,
            shut,
            rw same (All-append IsData (stdin_of f.frames) _ plain (tt, tt)),
            rw same (append_assoc (stdin_of f.frames) (input d ∷ []) es ∙ h),
          )
      data_written refused = inr (stop-IsOver es (input d ∷ es) h)
      data_written cancelled = inr (stop-IsOver es (input d ∷ es) h)
  stdin-IsOrdered (input_eof ∷ es) c h = eof_written r.write
    where
      eof_written : (w : Sent) → IsOrdered closed (write_eof w (record f { stdin = es })) came
      eof_written done =
          let same = stdin_of-append f.frames (stdin_eof ∷ []) in
          inr (
            inr refl,
            rw same (eof-IsInput (stdin_of f.frames) plain),
            (es, rw same (append_assoc (stdin_of f.frames) (input_eof ∷ []) es ∙ h)),
          )
      eof_written refused =
          inr (inr refl, data-IsInput (stdin_of f.frames) plain, (input_eof ∷ es, h))
      eof_written cancelled = inr (stop-IsOver es (input_eof ∷ es) h)

  select-IsOrdered :
      (ss : List Signal) (c : Bool)
      → stdin_of f.frames ++ f.stdin ≡ came
      → IsOrdered closed (select_open r ss c f) came
  select-IsOrdered (s ∷ ss) c h = signal-IsOrdered s ss r.write h
  select-IsOrdered [] true h = inl (running, reading, shut, plain, h)
  select-IsOrdered [] false h = stdin-IsOrdered f.stdin f.stdin_closed h

-- Behind the input only signals are written.
module _ (r : Round) (f : Forward) (came : List StdinEvent) where
  IsOver-write :
      (s : Signal) (ss : List Signal) (w : Sent)
      → IsOver f came
      → IsOver (write_frame (signal s) w (record f { signals = ss })) came
  unfolding stdin_of
  IsOver-write s ss done (ended, good, (rest, h)) =
      let same : stdin_of (f.frames ++ signal s ∷ []) ≡ stdin_of f.frames =
        stdin_of-append f.frames (signal s ∷ []) ∙ append-nil _ in
      (ended, rw same good, (rest, rw same h))
  IsOver-write s ss refused (ended, good, h) = (inl refl, good, h)
  IsOver-write s ss cancelled (ended, good, h) = (inl refl, good, h)

  IsOver-signal : (ss : List Signal) (c : Bool) → IsOver f came → IsOver (take_signal r ss c f) came
  IsOver-signal (s ∷ ss) c h = IsOver-write s ss r.write h
  IsOver-signal [] true (ended, good, h) = (inl refl, good, h)
  IsOver-signal [] false (ended, good, h) = elim (Bool-cases r.shutdown) [
    | inl e ↦ rw e (inl refl, good, h)
    | inr e ↦ rw e (ended, good, h)
  ]

  IsOver-branch :
      (b : Bool)
      → IsOver f came
      → IsOver (if b then stop f else take_signal r f.signals f.signals_closed f) came
  IsOver-branch true (ended, good, h) = (inl refl, good, h)
  IsOver-branch false h = IsOver-signal f.signals f.signals_closed h

  IsOver-poll : f.stdin_open ≡ false → IsOver f came → IsOver (poll r f) came
  IsOver-poll e h =
      subst
        (λ b.
          IsOver
            (if b
              then select_open r f.signals f.signals_closed f
              else if shutdown_wins r
              then stop f
              else take_signal r f.signals f.signals_closed f)
            came)
        (sym e) (IsOver-branch (shutdown_wins r) h)

reading-poll :
    (r : Round) (closed : Bool) (f : Forward) (came : List StdinEvent)
    → IsReading closed f came
    → IsOrdered closed (poll r f) came
reading-poll r closed f came (running, reading, shut, plain, h) =
    subst
      (λ b.
        IsOrdered closed
          (if b
            then select_open r f.signals f.signals_closed f
            else if shutdown_wins r
            then stop f
            else take_signal r f.signals f.signals_closed f)
          came)
      (sym reading)
      (select-IsOrdered r closed f came running reading shut plain f.signals f.signals_closed h)

-- The lanes get more, also while nothing is read.
more-input :
    (closed : Bool) (r : Round) (queue : List StdinEvent)
    → more closed r.more_stdin queue ≡ queue ++ new_input closed r
more-input true r queue = sym (append-nil queue)
more-input false r queue = refl

arrive-IsReading :
    (r : Round) (closed : Bool) (f : Forward) (came : List StdinEvent)
    → IsReading closed f came
    → IsReading (or_closed closed r.close_stdin) (arrive r f) (came ++ new_input closed r)
unfolding arrive
arrive-IsReading r closed f came (running, reading, shut, plain, h) = (
  running,
  reading,
  ap (λ c. or_closed c r.close_stdin) shut,
  plain,
  ap (λ c. stdin_of f.frames ++ more c r.more_stdin f.stdin) shut
      ∙ ap (λ q. stdin_of f.frames ++ q) (more-input closed r f.stdin)
      ∙ sym (append_assoc (stdin_of f.frames) f.stdin (new_input closed r))
      ∙ ap (λ x. x ++ new_input closed r) h,
)

later :
    (f : Forward) (came more_input : List StdinEvent)
    → IsOver f came
    → IsOver f (came ++ more_input)
later f came more_input (ended, good, (rest, h)) = (
  ended,
  good,
  (
    rest ++ more_input,
    sym (append_assoc (stdin_of f.frames) rest more_input) ∙ ap (λ x. x ++ more_input) h,
  ),
)

round-IsOrdered :
    (r : Round) (closed : Bool) (f : Forward) (came : List StdinEvent)
    → IsOrdered closed f came
    → IsOrdered (or_closed closed r.close_stdin) (round r f) (came ++ new_input closed r)
unfolding round arrive
round-IsOrdered r closed f came (inl h) =
    subst
      (λ b.
        IsOrdered (or_closed closed r.close_stdin) (if b then poll r (arrive r f) else f)
          (came ++ new_input closed r))
      (sym h.0)
      (reading-poll r (or_closed closed r.close_stdin) (arrive r f) (came ++ new_input closed r)
        (arrive-IsReading r closed f came h))
round-IsOrdered r closed f came (inr h) = inr (over_round f.running refl h)
  where
    over_round :
        (b : Bool)
        → f.running ≡ b
        → IsOver f came
        → IsOver (if b then poll r (arrive r f) else f) (came ++ new_input closed r)
    over_round false e h = later f came (new_input closed r) h
    over_round true e (inl stopped, good, rest) = cc
    over_round true e (inr behind, good, rest) =
        IsOver-poll r (arrive r f) (came ++ new_input closed r) behind
          (later f came (new_input closed r) (inr behind, good, rest))

rounds-IsOrdered :
    (rs : List Round) (closed : Bool) (f : Forward) (came : List StdinEvent)
    → IsOrdered closed f came
    → (last : Bool) × IsOrdered last (rounds rs f) (came ++ arrived closed rs)
unfolding rounds arrived
rounds-IsOrdered [] closed f came h = (closed, rw (append-nil came) h)
rounds-IsOrdered (r ∷ rs) closed f came h =
    rw (sym (append_assoc came (new_input closed r) (arrived (or_closed closed r.close_stdin) rs)))
      (rounds-IsOrdered rs (or_closed closed r.close_stdin) (round r f) (came ++ new_input closed r)
        (round-IsOrdered r closed f came h))

-- Whatever arrives on the lanes, is refused or is cancelled, the input that the forwarder writes is
-- the input that arrived, in order: while it reads, all of it but what still waits in the lane, and
-- afterwards a front of it, in which an end of the input stands behind all data.
pub rounds-opened :
    (req : ServeExec) (rs : List Round)
    → (last : Bool) × IsOrdered last (rounds rs (opened req)) (arrived false rs)
unfolding stdin_of
rounds-opened req rs = rounds-IsOrdered rs false (opened req) [] (inl (refl, refl, refl, tt, refl))
