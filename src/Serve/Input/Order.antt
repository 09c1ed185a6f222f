-- ===== src/Serve/Input/Order.antt =====
-- What the child gets on its standard input.
use shell_proxy.Prelude.{
  ◌≡◌, refl, sym, ap, ◌∙◌, Bool, true, false, Bool-cases, inl, inr, List, [], ◌∷◌, ◌++◌,
  append_assoc, take, drop, take-append-drop, ltb, length,
}
use shell_proxy.Proto.Frame.{Bytes, exec, stdin_data, stdin_eof, signal, ping, Signal}
use shell_proxy.Serve.Watch.{Ctrl}
use shell_proxy.Serve.Output.Pumps.{IsPrefix, Kept, Kept-IsPrefix}
use shell_proxy.Serve.Input.{
  Arrival, frame, ended, failed, StdinMsg, chunk, eof, Router, reading, sending, telling, stopped,
  Input, new_input, stdin_room, ctrl_room, route, read_next, send_stdin, behind, send_ctrl,
  turn_router, Write, whole, broken, turn_stdin, while_alive, receive, turn_signals, signal_turn,
  Turn, router_turn, pump_turn, loop_turn, turn, turns,
}

-- The data that arrive in front of the first end of the input, of the transport, or error.
unfoldable pub input_of : List Arrival → Bytes
input_of [] = []
input_of (frame (stdin_data d) ∷ rs) = d ++ input_of rs
input_of (frame stdin_eof ∷ rs) = []
input_of (frame (signal s) ∷ rs) = input_of rs
input_of (frame ping ∷ rs) = input_of rs
input_of (frame (exec req) ∷ rs) = input_of rs
input_of (ended ∷ rs) = []
input_of (failed e ∷ rs) = []

-- What messages and then `rest` bring, up to an end.
abbrev pub brings : List StdinMsg → Bytes → Bytes
brings [] rest = rest
brings (chunk d ∷ q) rest = d ++ brings q rest
brings (eof ∷ q) rest = []

-- What the router is still to bring.
abbrev pub routed : Router → List Arrival → Bytes
routed reading rs = input_of rs
routed (sending m) rs = brings (m ∷ []) (input_of rs)
routed (telling c false) rs = input_of rs
routed (telling c true) rs = []
routed stopped rs = []

abbrev pub Feeds : Bytes → Input → Type 0
Feeds total i = Kept i.pump_alive i.child_in (brings i.queue (routed i.router i.arrivals)) total

brings-append :
    (q : List StdinMsg) (m : StdinMsg) (rest : Bytes)
    → brings (q ++ m ∷ []) rest ≡ brings q (brings (m ∷ []) rest)
brings-append [] m rest = refl
brings-append (chunk d ∷ q) m rest = ap (λ (x : Bytes). d ++ x) (brings-append q m rest)
brings-append (eof ∷ q) m rest = refl

routed-route : (a : Arrival) (rs : List Arrival) → routed (route a) rs ≡ input_of (a ∷ rs)
unfolding route input_of
routed-route (frame (stdin_data d)) rs = refl
routed-route (frame stdin_eof) rs = refl
routed-route (frame (signal s)) rs = refl
routed-route (frame ping) rs = refl
routed-route (frame (exec req)) rs = refl
routed-route ended rs = refl
routed-route (failed e) rs = refl

read_next-Feeds :
    (total : Bytes) (rs : List Arrival) (i : Input)
    → i.arrivals ≡ rs
    → i.router ≡ reading
    → Feeds total i
    → Feeds total (read_next rs i)
unfolding read_next
read_next-Feeds total [] i same at h = h
read_next-Feeds total (a ∷ rs) i same at h = rw (routed-route a rs) (rw (at, same) at h)

send_stdin-Feeds :
    (total : Bytes) (b : Bool) (m : StdinMsg) (i : Input)
    → i.pump_alive ≡ b
    → i.router ≡ sending m
    → Feeds total i
    → Feeds total (send_stdin b m i)
unfolding send_stdin
send_stdin-Feeds total false m i dead at h =
    let front : Kept false i.child_in [] total = rw dead at h in rw dead front
send_stdin-Feeds total true m i alive at h = elim (Bool-cases (ltb (length i.queue) stdin_room)) [
  | inl room ↦ rw (room, brings-append i.queue m (input_of i.arrivals)) (rw at at h)
  | inr full ↦ rw full h
]

routed-behind :
    (c : Ctrl) (last : Bool) (rs : List Arrival)
    → routed (behind last) rs ≡ routed (telling c last) rs
routed-behind c true rs = refl
routed-behind c false rs = refl

send_ctrl-Feeds :
    (total : Bytes) (c : Ctrl) (last : Bool) (i : Input)
    → i.router ≡ telling c last
    → Feeds total i
    → Feeds total (send_ctrl c last i)
unfolding send_ctrl
send_ctrl-Feeds total c last i at h = elim (Bool-cases (ltb (length i.ctrl) ctrl_room)) [
  | inl room ↦ rw (room, routed-behind c last i.arrivals) (rw at at h)
  | inr full ↦ rw full h
]

router-Feeds :
    (total : Bytes) (r : Router) (i : Input)
    → i.router ≡ r
    → Feeds total i
    → Feeds total (turn_router r i)
unfolding turn_router
router-Feeds total reading i at h = read_next-Feeds total i.arrivals i refl at h
router-Feeds total (sending m) i at h = send_stdin-Feeds total i.pump_alive m i refl at h
router-Feeds total (telling c last) i at h = send_ctrl-Feeds total c last i at h
router-Feeds total stopped i at h = h

pump-Feeds :
    (total : Bytes) (w : Write) (q : List StdinMsg) (i : Input)
    → i.queue ≡ q
    → i.pump_alive ≡ true
    → Feeds total i
    → Feeds total (turn_stdin w q i)
unfolding turn_stdin
pump-Feeds total w [] i same alive h = h
pump-Feeds total w (eof ∷ q) i same alive h = Kept-IsPrefix i.pump_alive i.child_in _ total h
pump-Feeds total whole (chunk d ∷ q) i same alive h =
    let kept : i.child_in ++ (d ++ brings q (routed i.router i.arrivals)) ≡ total =
      rw (alive, same) at h in
    rw alive (append_assoc i.child_in d (brings q (routed i.router i.arrivals)) ∙ kept)
pump-Feeds total (broken n) (chunk d ∷ q) i same alive h =
    let kept : i.child_in ++ (d ++ brings q (routed i.router i.arrivals)) ≡ total =
      rw (alive, same) at h in
    let rest = brings q (routed i.router i.arrivals) in
    (
      drop n d ++ rest,
      append_assoc i.child_in (take n d) (drop n d ++ rest)
          ∙ ap (λ (x : Bytes). i.child_in ++ x)
              (sym (append_assoc (take n d) (drop n d) rest)
                ∙ ap (λ (x : Bytes). x ++ rest) (take-append-drop n d))
          ∙ kept,
    )

alive-Feeds :
    (total : Bytes) (b : Bool) (w : Write) (i : Input)
    → i.pump_alive ≡ b
    → Feeds total i
    → Feeds total (while_alive b w i)
alive-Feeds total false w i same h = h
alive-Feeds total true w i same h = pump-Feeds total w i.queue i refl same h

receive-Feeds :
    (total : Bytes) (c : List Ctrl) (i : Input) → Feeds total i → Feeds total (receive c i)
unfolding receive
receive-Feeds total [] i h = h
receive-Feeds total (c ∷ cs) i h = h

signals-Feeds :
    (total : Bytes) (ss : List Signal) (i : Input) → Feeds total i → Feeds total (turn_signals ss i)
unfolding turn_signals
signals-Feeds total [] i h = h
signals-Feeds total (s ∷ ss) i h = elim (Bool-cases (ltb (length i.ctrl) ctrl_room)) [
  | inl room ↦ rw room h
  | inr full ↦ rw full h
]

turn-Feeds : (total : Bytes) (t : Turn) (i : Input) → Feeds total i → Feeds total (turn t i)
unfolding turn
turn-Feeds total router_turn i h = router-Feeds total i.router i refl h
turn-Feeds total (pump_turn w) i h = alive-Feeds total i.pump_alive w i refl h
turn-Feeds total signal_turn i h = signals-Feeds total i.signals i h
turn-Feeds total loop_turn i h = receive-Feeds total i.ctrl i h

turns-Feeds :
    (total : Bytes) (ts : List Turn) (i : Input) → Feeds total i → Feeds total (turns ts i)
unfolding turns
turns-Feeds total [] i h = h
turns-Feeds total (t ∷ ts) i h = turns-Feeds total ts (turn t i) (turn-Feeds total t i h)

-- Whatever the schedule and whichever write breaks, what the child gets on its standard input is a
-- front of the data that arrive in front of the first end of the input, in order; and as long as
-- the pump lives, the two channels and the transport hold exactly the rest of it.
pub turns-input_of :
    (arrivals : List Arrival) (signals : List Signal) (ts : List Turn)
    → IsPrefix (turns ts (new_input arrivals signals)).child_in (input_of arrivals)
      × Feeds (input_of arrivals) (turns ts (new_input arrivals signals))
turns-input_of arrivals signals ts =
    let kept = turns-Feeds (input_of arrivals) ts (new_input arrivals signals) refl in
    (Kept-IsPrefix (turns ts (new_input arrivals signals)).pump_alive _ _ _ kept, kept)
