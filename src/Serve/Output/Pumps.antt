-- ===== src/Serve/Output/Pumps.antt =====
-- What a turn of a pump keeps: its pipe in order, and what is known of each frame.
use shell_proxy.Prelude.{
  ℕ, ◌≤◌, ◌≡◌, refl, sym, ap, ◌∙◌, Bool, true, false, Bool-cases, inl, inr, List, [], ◌∷◌, ◌++◌,
  ltb, length, take, drop, All, All-append, append_assoc, append-nil, take-append-drop, length-take,
  arith,
}
use shell_proxy.Proto.Frame.{Bytes, EventFrame, stdout, stderr, exit, pong}
use shell_proxy.Serve.Pipe.{Got, bytes, failed}
use shell_proxy.Serve.Output.{
  pump_buffer, channel_room, Pump, reading, sending, finished, rest_of, on_read, turn_pump,
}

-- What a pipe brings up to its end.
unfoldable pub content : List Got → Bytes
content [] = []
content (failed ∷ rs) = []
content (bytes [] ∷ rs) = []
content (bytes (b ∷ bs) ∷ rs) = (b ∷ bs) ++ content rs

-- The part of a frame, and of frames, that belongs to one pipe.
abbrev pub of_stdout : EventFrame → Bytes
of_stdout (stdout d) = d
of_stdout (stderr d) = []
of_stdout (exit r) = []
of_stdout (pong p) = []

abbrev pub of_stderr : EventFrame → Bytes
of_stderr (stderr d) = d
of_stderr (stdout d) = []
of_stderr (exit r) = []
of_stderr (pong p) = []

abbrev pub bytes_of : (EventFrame → Bytes) → List EventFrame → Bytes
bytes_of part [] = []
bytes_of part (f ∷ fs) = part f ++ bytes_of part fs

abbrev pub IsPrefix : Bytes → Bytes → Type 0
IsPrefix xs total = (rest : Bytes) × (xs ++ rest ≡ total)

pub bytes_of-append :
    (part : EventFrame → Bytes) (fs gs : List EventFrame)
    → bytes_of part (fs ++ gs) ≡ bytes_of part fs ++ bytes_of part gs
bytes_of-append part [] gs = refl
bytes_of-append part (f ∷ fs) gs =
    rw (bytes_of-append part fs gs, append_assoc (part f) (bytes_of part fs) (bytes_of part gs))
      refl

pub bytes_of-snoc :
    (part : EventFrame → Bytes) (fs : List EventFrame) (f : EventFrame)
    → bytes_of part (fs ++ f ∷ []) ≡ bytes_of part fs ++ part f
bytes_of-snoc part fs f = bytes_of-append part fs (f ∷ []) ∙ rw append-nil refl

abbrev pub left : (EventFrame → Bytes) → Pump → Bytes
left part (reading rs) = content rs
left part (sending f rs) = part f ++ content rs
left part finished = []

-- While the writer lives nothing is lost; behind its end what was sent is a front.
abbrev pub Kept : Bool → Bytes → Bytes → Bytes → Type 0
Kept true sent rest total = sent ++ rest ≡ total
Kept false sent rest total = IsPrefix sent total

pub Kept-IsPrefix :
    (alive : Bool) (sent rest total : Bytes) → Kept alive sent rest total → IsPrefix sent total
Kept-IsPrefix true sent rest total h = (rest, h)
Kept-IsPrefix false sent rest total h = h

-- The frame that a pump holds satisfies a predicate.
abbrev pub Holds : (EventFrame → Type 0) → Pump → Type 0
Holds P (reading rs) = Unit
Holds P (sending f rs) = P f
Holds P finished = Unit

content-rest_of : (bs : Bytes) (rs : List Got) → content (rest_of bs rs) ≡ bs ++ content rs
unfolding content
content-rest_of [] rs = refl
content-rest_of (b ∷ bs) rs = refl

module _ (part : EventFrame → Bytes) where
  -- A frame in front of the rest, and behind what was sent.
  pub sent_more :
      (w q : List EventFrame) (f : EventFrame) (rest total : Bytes)
      → bytes_of part (w ++ q) ++ (part f ++ rest) ≡ total
      → bytes_of part (w ++ (q ++ f ∷ [])) ++ rest ≡ total
  sent_more w q f rest total h =
      rw (sym (append_assoc w q (f ∷ [])), bytes_of-snoc part (w ++ q) f)
        (append_assoc (bytes_of part (w ++ q)) (part f) rest ∙ h)

module _ (mk : Bytes → EventFrame) where
  module _ (part : EventFrame → Bytes) (own : (d : Bytes) → part (mk d) ≡ d) where
    left-on_read : (n : ℕ) (rs : List Got) → left part (on_read n mk rs) ≡ content rs
    unfolding on_read content
    left-on_read n [] = refl
    left-on_read n (failed ∷ rs) = refl
    left-on_read n (bytes [] ∷ rs) = refl
    left-on_read n (bytes (b ∷ bs) ∷ rs) =
        let cut = take-append-drop n (b ∷ bs) in
        rw (own (take n (b ∷ bs)), content-rest_of (drop n (b ∷ bs)) rs)
          (sym (append_assoc (take n (b ∷ bs)) (drop n (b ∷ bs)) (content rs))
            ∙ ap (λ (x : Bytes). x ++ content rs) cut)

    pub own-Kept :
        (alive : Bool) (w q : List EventFrame) (p : Pump) (total : Bytes)
        → Kept alive (bytes_of part (w ++ q)) (left part p) total
        → Kept alive
            (bytes_of part (w ++ (turn_pump mk alive q p).1))
            (left part (turn_pump mk alive q p).0)
            total
    unfolding turn_pump
    own-Kept true w q finished total h = h
    own-Kept false w q finished total h = h
    own-Kept true w q (reading rs) total h = rw (left-on_read pump_buffer rs) h
    own-Kept false w q (reading rs) total h = h
    own-Kept false w q (sending f rs) total h = h
    own-Kept true w q (sending f rs) total h = elim (Bool-cases (ltb (length q) channel_room)) [
      | inl room ↦ rw room (sent_more part w q f (content rs) total h)
      | inr full ↦ rw full h
    ]

  module _ (part : EventFrame → Bytes) where
    -- The frames of the other pipe and the answers hold nothing of this one.
    pub other-Kept :
        (alive : Bool) (w q : List EventFrame) (p : Pump) (rest total : Bytes)
        → Holds (λ f. part f ≡ []) p
        → Kept alive (bytes_of part (w ++ q)) rest total
        → Kept alive (bytes_of part (w ++ (turn_pump mk alive q p).1)) rest total
    unfolding turn_pump
    other-Kept alive w q finished rest total quiet h = h
    other-Kept alive w q (reading rs) rest total quiet h = h
    other-Kept false w q (sending f rs) rest total quiet h = h
    other-Kept true w q (sending f rs) rest total quiet h =
        elim (Bool-cases (ltb (length q) channel_room)) [
          | inl room ↦ rw room (sent_more part w q f rest total (rw quiet h))
          | inr full ↦ rw full h
        ]

  module _ (P : EventFrame → Type 0)
      (made : (rs : List Got) → Holds P (on_read pump_buffer mk rs)) where
    pub turn_pump-Holds :
        (alive : Bool) (q : List EventFrame) (p : Pump)
        → Holds P p
        → Holds P (turn_pump mk alive q p).0
    unfolding turn_pump
    turn_pump-Holds alive q finished h = h
    turn_pump-Holds alive q (reading rs) h = made rs
    turn_pump-Holds false q (sending f rs) h = tt
    turn_pump-Holds true q (sending f rs) h = elim (Bool-cases (ltb (length q) channel_room)) [
      | inl room ↦ rw room tt
      | inr full ↦ rw full h
    ]

    pub turn_pump-All :
        (alive : Bool) (q : List EventFrame) (p : Pump)
        → Holds P p
        → All P q
        → All P (turn_pump mk alive q p).1
    unfolding turn_pump
    turn_pump-All alive q finished h all = all
    turn_pump-All alive q (reading rs) h all = all
    turn_pump-All false q (sending f rs) h all = all
    turn_pump-All true q (sending f rs) h all = elim (Bool-cases (ltb (length q) channel_room)) [
      | inl room ↦ rw room (All-append P q (f ∷ []) all (h, tt))
      | inr full ↦ rw full all
    ]

-- What a read brings is no more than the buffer.
pub on_read-Holds :
    (mk : Bytes → EventFrame) (P : EventFrame → Type 0) (n : ℕ)
    → ((d : Bytes) → length d ≤ n → P (mk d))
    → (rs : List Got) → Holds P (on_read n mk rs)
unfolding on_read
on_read-Holds mk P n h [] = tt
on_read-Holds mk P n h (failed ∷ rs) = tt
on_read-Holds mk P n h (bytes [] ∷ rs) = tt
on_read-Holds mk P n h (bytes (b ∷ bs) ∷ rs) =
    h (take n (b ∷ bs)) (omega (arith, length-take n (b ∷ bs)))
