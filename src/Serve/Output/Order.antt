-- ===== src/Serve/Output/Order.antt =====
-- What the writer has written, at any point of a schedule and behind the drain.
use shell_proxy.Prelude.{
  ◌≤◌, ◌≡◌, refl, sym, ◌∙◌, Bool, true, false, Bool-cases, inl, inr, List, [], ◌∷◌, ◌++◌, ltb,
  length, All, All-append, append_assoc, append-nil, ◌&&◌,
}
use shell_proxy.Proto.Frame.{Bytes, EventFrame, stdout, stderr, exit, pong, Pong}
use shell_proxy.Serve.Pipe.{Got}
use shell_proxy.Serve.Output.{
  pump_buffer, channel_room, Output, on_read, turn_writer, Poll, poll_out, poll_err, poll_writer,
  ping, answer, poll,
}
use shell_proxy.Serve.Output.Pumps.{
  of_stdout, of_stderr, bytes_of, bytes_of-append, bytes_of-snoc, IsPrefix, left, Kept,
  Kept-IsPrefix, Holds, own-Kept, other-Kept, turn_pump-Holds, turn_pump-All, on_read-Holds,
}

-- The frames that a command may send in front of its report.
abbrev pub IsOutput : EventFrame → Type 0
IsOutput (stdout d) = length d ≤ pump_buffer
IsOutput (stderr d) = length d ≤ pump_buffer
IsOutput (exit r) = ⊥
IsOutput (pong p) = Unit

pub front_IsPrefix :
    (part : EventFrame → Bytes) (w q : List EventFrame) (total : Bytes)
    → IsPrefix (bytes_of part (w ++ q)) total
    → IsPrefix (bytes_of part w) total
front_IsPrefix part w q total (rest, h) = (
  bytes_of part q ++ rest,
  sym (append_assoc (bytes_of part w) (bytes_of part q) rest)
      ∙ rw (sym (bytes_of-append part w q)) h,
)

module _ (part : EventFrame → Bytes) where
  writer-Kept :
      (b : Bool) (q : List EventFrame) (o : Output) (rest total : Bytes)
      → o.queue ≡ q
      → Kept o.writer_alive (bytes_of part (o.written ++ o.queue)) rest total
      → Kept
          (turn_writer b q o).writer_alive
          (bytes_of part ((turn_writer b q o).written ++ (turn_writer b q o).queue))
          rest
          total
  unfolding turn_writer
  writer-Kept b [] o rest total same h = h
  writer-Kept true (f ∷ fs) o rest total same h =
      rw (append_assoc o.written (f ∷ []) fs) (rw same at h)
  writer-Kept false (f ∷ fs) o rest total same h =
      rw append-nil
        (front_IsPrefix part o.written o.queue total (Kept-IsPrefix o.writer_alive _ rest total h))

  answer-Kept :
      (p : Pong) (o : Output) (rest total : Bytes)
      → part (pong p) ≡ []
      → Kept o.writer_alive (bytes_of part (o.written ++ o.queue)) rest total
      → Kept
          (answer p o).writer_alive
          (bytes_of part ((answer p o).written ++ (answer p o).queue))
          rest
          total
  unfolding answer
  answer-Kept p o rest total quiet h =
      elim (Bool-cases (o.pings && (o.writer_alive && ltb (length o.queue) channel_room))) [
        | inl room ↦ rw room (
            rw
              (
                sym (append_assoc o.written o.queue (pong p ∷ [])),
                bytes_of-snoc part (o.written ++ o.queue) (pong p),
                quiet,
                append-nil,
              )
              h)
        | inr full ↦ rw full h
      ]

-- The writer and the answers leave the pumps alone.
pub writer_pumps :
    (b : Bool) (q : List EventFrame) (o : Output)
    → ((turn_writer b q o).out_pump ≡ o.out_pump) × ((turn_writer b q o).err_pump ≡ o.err_pump)
unfolding turn_writer
writer_pumps b [] o = (refl, refl)
writer_pumps true (f ∷ fs) o = (refl, refl)
writer_pumps false (f ∷ fs) o = (refl, refl)

pub answer_pumps :
    (p : Pong) (o : Output)
    → ((answer p o).out_pump ≡ o.out_pump) × ((answer p o).err_pump ≡ o.err_pump)
unfolding answer
answer_pumps p o =
    elim (Bool-cases (o.pings && (o.writer_alive && ltb (length o.queue) channel_room))) [
      | inl room ↦ rw room (refl, refl)
      | inr full ↦ rw full (refl, refl)
    ]

-- Of a pipe the frames hold a front, and all that its pump has read while the writer lives.
abbrev pub KeepsOut : Bytes → Output → Type 0
KeepsOut total o =
    Kept o.writer_alive (bytes_of of_stdout (o.written ++ o.queue)) (left of_stdout o.out_pump)
      total
    × Holds (λ f. of_stdout f ≡ []) o.err_pump

abbrev pub KeepsErr : Bytes → Output → Type 0
KeepsErr total o =
    Kept o.writer_alive (bytes_of of_stderr (o.written ++ o.queue)) (left of_stderr o.err_pump)
      total
    × Holds (λ f. of_stderr f ≡ []) o.out_pump

abbrev pub SendsOutput : Output → Type 0
SendsOutput o =
    All IsOutput o.written
    × All IsOutput o.queue
    × Holds IsOutput o.out_pump
    × Holds IsOutput o.err_pump

pub poll-KeepsOut :
    (total : Bytes) (p : Poll) (o : Output) → KeepsOut total o → KeepsOut total (poll p o)
unfolding poll
poll-KeepsOut total poll_out o (h, quiet) = (
  own-Kept stdout of_stdout (λ d. refl) o.writer_alive o.written o.queue o.out_pump total h,
  quiet,
)
poll-KeepsOut total poll_err o (h, quiet) = (
  other-Kept stderr of_stdout o.writer_alive o.written o.queue o.err_pump
      (left of_stdout o.out_pump) total quiet h,
  turn_pump-Holds stderr (λ f. of_stdout f ≡ []) (on_read-Holds stderr _ pump_buffer (λ d s. refl))
      o.writer_alive o.queue o.err_pump quiet,
)
poll-KeepsOut total (poll_writer b) o (h, quiet) =
    let (same_out, same_err) = writer_pumps b o.queue o in
    rw (same_out, same_err)
      (writer-Kept of_stdout b o.queue o (left of_stdout o.out_pump) total refl h, quiet)
poll-KeepsOut total (ping p) o (h, quiet) =
    let (same_out, same_err) = answer_pumps p o in
    rw (same_out, same_err)
      (answer-Kept of_stdout p o (left of_stdout o.out_pump) total refl h, quiet)

pub poll-KeepsErr :
    (total : Bytes) (p : Poll) (o : Output) → KeepsErr total o → KeepsErr total (poll p o)
unfolding poll
poll-KeepsErr total poll_err o (h, quiet) = (
  own-Kept stderr of_stderr (λ d. refl) o.writer_alive o.written o.queue o.err_pump total h,
  quiet,
)
poll-KeepsErr total poll_out o (h, quiet) = (
  other-Kept stdout of_stderr o.writer_alive o.written o.queue o.out_pump
      (left of_stderr o.err_pump) total quiet h,
  turn_pump-Holds stdout (λ f. of_stderr f ≡ []) (on_read-Holds stdout _ pump_buffer (λ d s. refl))
      o.writer_alive o.queue o.out_pump quiet,
)
poll-KeepsErr total (poll_writer b) o (h, quiet) =
    let (same_out, same_err) = writer_pumps b o.queue o in
    rw (same_out, same_err)
      (writer-Kept of_stderr b o.queue o (left of_stderr o.err_pump) total refl h, quiet)
poll-KeepsErr total (ping p) o (h, quiet) =
    let (same_out, same_err) = answer_pumps p o in
    rw (same_out, same_err)
      (answer-Kept of_stderr p o (left of_stderr o.err_pump) total refl h, quiet)

made_out : (rs : List Got) → Holds IsOutput (on_read pump_buffer stdout rs)
made_out = on_read-Holds stdout IsOutput pump_buffer (λ d h. h)

made_err : (rs : List Got) → Holds IsOutput (on_read pump_buffer stderr rs)
made_err = on_read-Holds stderr IsOutput pump_buffer (λ d h. h)

writer-SendsOutput :
    (b : Bool) (q : List EventFrame) (o : Output)
    → o.queue ≡ q
    → SendsOutput o
    → SendsOutput (turn_writer b q o)
unfolding turn_writer
writer-SendsOutput b [] o same h = h
writer-SendsOutput true (f ∷ fs) o same (w, q, out, err) =
    let (hf, hfs) : All IsOutput (f ∷ fs) = rw same at q in
    (All-append IsOutput o.written (f ∷ []) w (hf, tt), hfs, out, err)
writer-SendsOutput false (f ∷ fs) o same (w, q, out, err) = (w, tt, out, err)

pub poll-SendsOutput : (p : Poll) (o : Output) → SendsOutput o → SendsOutput (poll p o)
unfolding poll
poll-SendsOutput poll_out o (w, q, out, err) = (
  w,
  turn_pump-All stdout IsOutput made_out o.writer_alive o.queue o.out_pump out q,
  turn_pump-Holds stdout IsOutput made_out o.writer_alive o.queue o.out_pump out,
  err,
)
poll-SendsOutput poll_err o (w, q, out, err) = (
  w,
  turn_pump-All stderr IsOutput made_err o.writer_alive o.queue o.err_pump err q,
  out,
  turn_pump-Holds stderr IsOutput made_err o.writer_alive o.queue o.err_pump err,
)
poll-SendsOutput (poll_writer b) o h = writer-SendsOutput b o.queue o refl h
poll-SendsOutput (ping p) o (w, q, out, err) =
    elim (Bool-cases (o.pings && (o.writer_alive && ltb (length o.queue) channel_room))) [
      | inl room ↦
          unfold answer in
          rw room (w, All-append IsOutput o.queue (pong p ∷ []) q (tt, tt), out, err)
      | inr full ↦ unfold answer in rw full (w, q, out, err)
    ]
