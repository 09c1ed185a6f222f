-- ===== src/Client/Connect/Ends.antt =====
-- `connect_or_spawn` of src/client.rs comes to an end, and touches nothing without a reason.
use shell_proxy.Prelude.{
  ℕ, ◌+◌, ◌*◌, ◌≤◌, ◌≡◌, refl, Bool, true, false, List, [], ◌∷◌, some, Result, ok, Result-cases,
  All, ◌≢◌, if◌then◌else◌, leb, length, arith, ◌⊎◌, inl, inr,
}
use shell_proxy.Client.Connect.{
  Attempt, connected, refused, unreachable, Action, remove_socket, spawn_daemon, sleep,
  ConnectError, World, spawn_wait, Connected, or_sleep, connect_loop, spawn_and_wait, try_again,
  behind_first, connect_or_spawn,
}

-- Each attempt comes at least a sleep behind the one before.
abbrev pub IsPaced : ℕ → List (ℕ × Attempt) → Type 0
IsPaced at [] = Unit
IsPaced at ((now, a) ∷ ts) = (at ≤ now) × IsPaced (now + 100) ts

abbrev pub HasEnded : Connected → Type 0
HasEnded (done, r) = (x : Result (Unit {0}) ConnectError) × (r ≡ some x)

or_sleep-HasEnded :
    (b : Bool) (a : Attempt) (rest : Connected)
    → (b ≡ false → HasEnded rest)
    → HasEnded (or_sleep b a rest)
or_sleep-HasEnded true a rest h = (_, refl)
or_sleep-HasEnded false a rest h = h refl

connect_loop-HasEnded :
    (deadline at : ℕ) (ts : List (ℕ × Attempt))
    → IsPaced at ts
    → 1 ≤ length ts
    → deadline + 100 ≤ at + 100 * length ts
    → HasEnded (connect_loop deadline ts)
unfolding connect_loop
connect_loop-HasEnded deadline at [] paced some_left enough = absurd (omega arith)
connect_loop-HasEnded deadline at ((now, connected) ∷ ts) paced some_left enough = (ok tt, refl)
connect_loop-HasEnded deadline at ((now, refused) ∷ ts) (le, paced) some_left enough =
    or_sleep-HasEnded (leb deadline now) refused (connect_loop deadline ts)
      (λ early. connect_loop-HasEnded deadline (now + 100) ts paced (ground arith) (omega arith))
connect_loop-HasEnded deadline at ((now, unreachable e) ∷ ts) (le, paced) some_left enough =
    or_sleep-HasEnded (leb deadline now) (unreachable e) (connect_loop deadline ts)
      (λ early. connect_loop-HasEnded deadline (now + 100) ts paced (ground arith) (omega arith))

spawn-HasEnded :
    (w : World)
    → IsPaced w.spawned_at w.retries
    → 101 ≤ length w.retries
    → HasEnded (spawn_and_wait w)
unfolding spawn_and_wait
spawn-HasEnded w paced enough = elim (Result-cases w.spawned) [
  | inl (t, up) ↦ rw up (
      connect_loop-HasEnded (w.spawned_at + spawn_wait) w.spawned_at w.retries paced (omega arith)
        (omega arith))
  | inr (e, down) ↦ rw down (_, refl)
]

abbrev AreSleeps : List Action → Type 0
AreSleeps done = All (λ a. a ≡ sleep) done

or_sleep-AreSleeps :
    (b : Bool) (a : Attempt) (rest : Connected) → AreSleeps rest.0 → AreSleeps (or_sleep b a rest).0
or_sleep-AreSleeps true a rest h = tt
or_sleep-AreSleeps false a rest h = (refl, h)

connect_loop-AreSleeps :
    (deadline : ℕ) (ts : List (ℕ × Attempt)) → AreSleeps (connect_loop deadline ts).0
unfolding connect_loop
connect_loop-AreSleeps deadline [] = tt
connect_loop-AreSleeps deadline ((now, connected) ∷ ts) = tt
connect_loop-AreSleeps deadline ((now, refused) ∷ ts) =
    or_sleep-AreSleeps (leb deadline now) refused (connect_loop deadline ts)
      (connect_loop-AreSleeps deadline ts)
connect_loop-AreSleeps deadline ((now, unreachable e) ∷ ts) =
    or_sleep-AreSleeps (leb deadline now) (unreachable e) (connect_loop deadline ts)
      (connect_loop-AreSleeps deadline ts)

-- No attempt in front of the start of the daemon has connected.
abbrev pub IsDown : World → Type 0
IsDown w = (w.first ≢ connected) × ((w.absolute ≡ false) ⊎ (w.second ≢ connected))

-- Nothing is done, or the daemon is started once, where it is down, with sleeps behind it.
abbrev pub Starts : World → List Action → Type 0
Starts w done =
    (done ≡ []) ⊎ ((rest : List Action) × (done ≡ spawn_daemon ∷ rest) × AreSleeps rest × IsDown w)

-- The socket is removed in front of that only if a second attempt was refused.
abbrev pub IsCareful : World → List Action → Type 0
IsCareful w done =
    Starts w done
    ⊎ ((rest : List Action) × (done ≡ remove_socket ∷ rest)
        × Starts w rest
        × (w.absolute ≡ true)
        × (w.second ≡ refused)
        × IsDown w)

abbrev pub Behaves : World → Connected → Type 0
Behaves w c = HasEnded c × IsCareful w c.0

abbrev pub IsServedBy : World → Type 0
IsServedBy w = Behaves w (connect_or_spawn w)

spawn-Starts : (w : World) → IsDown w → Starts w (spawn_and_wait w).0
unfolding spawn_and_wait
spawn-Starts w down = elim (Result-cases w.spawned) [
  | inl (t, up) ↦
      rw up (inr (_, refl, connect_loop-AreSleeps (w.spawned_at + spawn_wait) w.retries, down))
  | inr (e, down_now) ↦ rw down_now (inl refl)
]

module _ (w : World) (paced : IsPaced w.spawned_at w.retries)
    (enough : 101 ≤ length w.retries) where
  again-Behaves :
      (a : Attempt)
      → w.second ≡ a
      → w.first ≢ connected
      → w.absolute ≡ true
      → Behaves w (try_again a w)
  unfolding try_again
  again-Behaves connected same first absolute = ((ok tt, refl), inl (inl refl))
  again-Behaves refused same first absolute =
      let down : IsDown w = (first, inr (λ e. cc)) in
      (spawn-HasEnded w paced enough, inr (_, refl, spawn-Starts w down, absolute, same, down))
  again-Behaves (unreachable e) same first absolute =
      (spawn-HasEnded w paced enough, inl (spawn-Starts w (first, inr (λ e. cc))))

  below-Behaves :
      (b : Bool)
      → w.absolute ≡ b
      → w.first ≢ connected
      → Behaves w (if b then try_again w.second w else spawn_and_wait w)
  below-Behaves true absolute first = again-Behaves w.second refl first absolute
  below-Behaves false relative first =
      (spawn-HasEnded w paced enough, inl (spawn-Starts w (first, inl relative)))

  first-Behaves : (a : Attempt) → w.first ≡ a → Behaves w (behind_first a w)
  first-Behaves connected same = ((ok tt, refl), inl (inl refl))
  first-Behaves refused same = below-Behaves w.absolute refl (λ e. cc)
  first-Behaves (unreachable e) same = below-Behaves w.absolute refl (λ e. cc)

  -- When each attempt comes at least a sleep of 100 ms behind the one before, `connect_or_spawn`
  -- ends within 101 attempts behind the start of the daemon. It starts the daemon at most once, and
  -- only where no attempt has connected, and removes the socket only in front of that, where the
  -- second attempt at an absolute path was refused; all else that it does is sleep.
  pub connect_or_spawn-IsCareful : IsServedBy w
  unfolding connect_or_spawn
  connect_or_spawn-IsCareful = first-Behaves w.first refl
