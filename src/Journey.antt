-- ===== src/Journey.antt =====
-- The hops in a row: what `execute` of crates/sp-serve/src/serve.rs puts on standard output, through
-- the SSH channel in any chunks, to what `ExecChannel::wait` of src/remote.rs gives the daemon.
mod Tests
use shell_proxy.Prelude.{
  ℕ, ◌+◌, ◌≤◌, ◌++◌, ◌≡◌, refl, sym, ap, subst, ◌∙◌, List, [], ◌∷◌, Option, none, some, Result, ok,
  err, ◌>>=◌, map_ok, map_err, true, Bool, All, append_assoc, concat, length, length-append, arith,
  ltb,
}
use shell_proxy.Proto.Frame.{
  Bytes, Error, EventFrame, stdout, stderr, exit, pong, Pong, ExitReport, ServeExec, EventJson,
  Json, ReadsBack, max_payload, encode_event_frame, frame_header, encode_raw, event_byte, EventKind,
  to_le_bytes,
}
use shell_proxy.Proto.Decoder.RoundTrip.{Encodes}
use shell_proxy.Remote.Engine.{ChanEvent, OutputEvent, out, errs, wait}
use shell_proxy.Remote.Engine.Report.{chunks_of, outputs, report, IsReported, wait-encode}
use shell_proxy.Serve.Pipe.{Got}
use shell_proxy.Serve.State.{System, Files}
use shell_proxy.Serve.Output.{pump_buffer, Tick}
use shell_proxy.Serve.Output.Pumps.{content, of_stdout, of_stderr, bytes_of, IsPrefix}
use shell_proxy.Serve.Execute.{Round, Closing, Served, Child, execute}
use shell_proxy.Serve.Execute.Frames.{EndsIn, IsServed, Comes, execute-Comes}
use shell_proxy.Serve.Output.Order.{IsOutput}

-- A value whose JSON a receiver takes.
abbrev pub IsSmall : {A : Type 0} → Json A → A → Type 0
IsSmall {A} j a = (b : Bytes) × (j.to_vec a ≡ ok b) × (length b ≤ max_payload)

raw :
    (k : ℕ) (d : Bytes)
    → length d ≤ 16777216
    → (w : Bytes) × (encode_raw k d ≡ ok w) × (length w ≤ 5 + 16777216)
unfolding encode_raw frame_header
raw k d h =
    let fits : ltb (length d) 4294967296 ≡ true = ground arith in
    (
      (k ∷ to_le_bytes (length d)) ++ d,
      rw fits refl,
      omega (arith, length-append (k ∷ to_le_bytes (length d)) d),
    )

frame_wire :
    (j : EventJson)
    → ((p : Pong) → IsSmall j.pong p)
    → (f : EventFrame) → IsOutput f
    → (w : Bytes) × (encode_event_frame j f ≡ ok w) × (length w ≤ 5 + max_payload)
unfolding encode_event_frame
frame_wire j pongs (stdout d) h = raw (event_byte EventKind.stdout) d (omega arith)
frame_wire j pongs (stderr d) h = raw (event_byte EventKind.stderr) d (omega arith)
frame_wire j pongs (exit r) h = absurd h
frame_wire j pongs (pong p) h =
    let (b, e, small) = pongs p in rw e (raw (event_byte EventKind.pong) b small)

frames_wires :
    (j : EventJson)
    → ((p : Pong) → IsSmall j.pong p)
    → (outs : List EventFrame) (r : ExitReport) → All IsOutput outs
    → IsSmall j.report r
    → (wires : List Bytes) × Encodes j (outs ++ exit r ∷ []) wires
frames_wires j pongs [] r h (b, e, small) =
    let (w, encoded, short) = raw (event_byte EventKind.exit) b small in
    (w ∷ [], ((unfold encode_event_frame in rw e encoded), short, tt))
frames_wires j pongs (f ∷ fs) r (h, hs) small =
    let (w, encoded, short) = frame_wire j pongs f h in
    let (ws, rest) = frames_wires j pongs fs r hs small in (w ∷ ws, (encoded, short, rest))

-- What the daemon was sent for each stream.
abbrev pub sent_stdout : List OutputEvent → Bytes
sent_stdout [] = []
sent_stdout (out d ∷ es) = d ++ sent_stdout es
sent_stdout (errs d ∷ es) = sent_stdout es

abbrev pub sent_stderr : List OutputEvent → Bytes
sent_stderr [] = []
sent_stderr (out d ∷ es) = sent_stderr es
sent_stderr (errs d ∷ es) = d ++ sent_stderr es

outputs_parts :
    (fs : List EventFrame) (r : ExitReport)
    → All IsOutput fs
    → (report (fs ++ exit r ∷ []) ≡ some r)
      × (sent_stdout (outputs (fs ++ exit r ∷ [])) ≡ bytes_of of_stdout fs)
      × (sent_stderr (outputs (fs ++ exit r ∷ [])) ≡ bytes_of of_stderr fs)
unfolding report outputs
outputs_parts [] r h = (refl, refl, refl)
outputs_parts (stdout d ∷ fs) r (h, hs) =
    let (a, b, c) = outputs_parts fs r hs in (a, ap (λ (x : Bytes). d ++ x) b, c)
outputs_parts (stderr d ∷ fs) r (h, hs) =
    let (a, b, c) = outputs_parts fs r hs in (a, b, ap (λ (x : Bytes). d ++ x) c)
outputs_parts (exit x ∷ fs) r (h, hs) = absurd h
outputs_parts (pong p ∷ fs) r (h, hs) = outputs_parts fs r hs

-- The daemon's view of a run that wrote `frames`: the last of them is the report whose outcome it
-- has, and it was sent the outputs in all of them, which are of each pipe a front of what it brought.
abbrev pub Arrives :
    EventJson → List Got → List Got → List EventFrame → List ChanEvent → ExitReport → Type 0
Arrives j a b frames es r =
    ((outs : List EventFrame) × All IsOutput outs × (frames ≡ outs ++ exit r ∷ []))
    × IsReported (wait j es) (outputs frames) r
    × IsPrefix (sent_stdout (outputs frames)) (content a)
    × IsPrefix (sent_stderr (outputs frames)) (content b)

Comes-IsServed :
    (a b : List Got) (o : Option Served) (v : Served) → o ≡ some v → Comes a b o → IsServed a b v
Comes-IsServed a b none v h c = cc
Comes-IsServed a b (some u) v h c =
    let same : u ≡ v = cc in subst (λ (x : Served). IsServed a b x) same c

IsServed-Arrives :
    (j : EventJson) (a b : List Got) (v : Served) (wires : List Bytes) (es : List ChanEvent)
    → ReadsBack j.report
    → ReadsBack j.pong
    → v.result ≡ ok tt
    → Encodes j v.frames wires
    → concat (chunks_of es) ≡ concat wires
    → IsServed a b v
    → (r : ExitReport) × Arrives j a b v.frames es r
IsServed-Arrives j a b v wires es hr hp good encoded chunks
      (outs, (all, out_front, err_front), ends) =
    let (r, same) : EndsIn (ok tt) outs v.frames = rw good at ends in
    let (reported, out_same, err_same) = outputs_parts outs r all in
    let wired = subst (λ (fs : List EventFrame). Encodes j fs wires) same encoded in
    (
      r,
      (
        (outs, all, same),
        rw same (wait-encode j es (outs ++ exit r ∷ []) wires r hr hp wired chunks reported),
        rw same (subst (λ (x : Bytes). IsPrefix x (content a)) (sym out_same) out_front),
        rw same (subst (λ (x : Bytes). IsPrefix x (content b)) (sym err_same) err_front),
      ),
    )

-- From the child's pipes to the daemon. When a run of `execute` succeeds and its frames were
-- encoded, none with a payload above the receiver's limit, then however the channel cuts those
-- bytes and whatever it puts between them, `wait` on the daemon's side gives the outcome of the
-- report that is the last of those frames, after it forwarded the outputs in all the others, which
-- are of each pipe a front of what it brought, in order; provided that the JSON reader gives back
-- the reports and pongs that the JSON writer wrote.
pub execute-wait :
    (j : EventJson) (limit now : ℕ) (sys : System) (req : ServeExec) (child : Child)
    (rounds : List Round) (c : Closing) (fs : Files) (v : Served) (wires : List Bytes)
    (es : List ChanEvent)
    → ReadsBack j.report
    → ReadsBack j.pong
    → execute limit now sys req child rounds c fs ≡ some v
    → v.result ≡ ok tt
    → Encodes j v.frames wires
    → concat (chunks_of es) ≡ concat wires
    → (r : ExitReport) × Arrives j child.out_pipe child.err_pipe v.frames es r
execute-wait j limit now sys req child rounds c fs v wires es hr hp ran good encoded chunks =
    IsServed-Arrives j child.out_pipe child.err_pipe v wires es hr hp good encoded chunks (
      Comes-IsServed child.out_pipe child.err_pipe _ v ran
        (execute-Comes limit now sys req child rounds c fs))

-- The frames of a run that succeeds have such encodings, where pongs and its report have.
pub execute-Encodes :
    (j : EventJson) (limit now : ℕ) (sys : System) (req : ServeExec) (child : Child)
    (rounds : List Round) (c : Closing) (fs : Files) (v : Served)
    → ((p : Pong) → IsSmall j.pong p)
    → execute limit now sys req child rounds c fs ≡ some v
    → v.result ≡ ok tt
    → ((outs : List EventFrame) (r : ExitReport)
        → v.frames ≡ outs ++ exit r ∷ []
        → IsSmall j.report r)
    → (wires : List Bytes) × Encodes j v.frames wires
execute-Encodes j limit now sys req child rounds c fs v pongs ran good small =
    let (outs, (all, out_front, err_front), ends) =
      Comes-IsServed child.out_pipe child.err_pipe _ v ran
        (execute-Comes limit now sys req child rounds c fs) in
    let (r, same) : EndsIn (ok tt) outs v.frames = rw good at ends in
    let (wires, encoded) = frames_wires j pongs outs r all (small outs r same) in
    (wires, subst (λ (fs : List EventFrame). Encodes j fs wires) (sym same) encoded)
