-- ===== src/Daemon/Idle/Sound.antt =====
-- What holds in every state of the accept loop.
use shell_proxy.Prelude.{
  ℕ, ◌<◌, ◌≡◌, ◌==◌, refl, subst, true, Bool-cases, Option, none, some, arith, ◌⊎◌, inl, inr,
}
use shell_proxy.Daemon.Idle.{
  Place, top, waiting, idled_out, failed, Loop, idle_deadline, load, accept, release, notify_one,
  wake, end_at, Step, loads, accepts, accept_fails, idles_out, wakes, releases, notifies, Reach,
  here, next,
}

-- Somebody will wake the loop: the permit is there, or a guard is about to leave one.
abbrev pub IsPending : Loop → Type 0
IsPending l = (l.permit ≡ true) ⊎ (0 < l.notifying)

-- By the place of the loop: with a deadline no connection is live; without one, and with none
-- live, a wake is pending unless the deadline could not be set.
abbrev pub Fits : ℕ → Option ℕ → Loop → Place → Type 0
Fits limit idle l top = Unit
Fits limit idle l (waiting (some d)) =
    (l.live ≡ 0) × (idle_deadline limit idle l.loaded_at ≡ some d)
Fits limit idle l (waiting none) =
    (0 < l.live) ⊎ (IsPending l ⊎ (idle_deadline limit idle l.loaded_at ≡ none))
Fits limit idle l idled_out = l.live ≡ 0
Fits limit idle l failed = Unit

abbrev pub IsSound : ℕ → Option ℕ → Loop → Type 0
IsSound limit idle l = (l.active ≡ l.live) × Fits limit idle l l.place

armed :
    (limit : ℕ) (idle : Option ℕ) (l : Loop) (d : Option ℕ)
    → l.live ≡ 0
    → idle_deadline limit idle l.loaded_at ≡ d
    → Fits limit idle l (waiting d)
armed limit idle l none h e = inr (inr e)
armed limit idle l (some d) h e = (h, e)

loads-IsSound :
    (limit : ℕ) (idle : Option ℕ) (now : ℕ) (l : Loop)
    → l.active ≡ l.live
    → IsSound limit idle (load limit idle now l)
unfolding load
loads-IsSound limit idle now l same = elim (Bool-cases (l.active == 0)) [
  | inl free ↦ rw free (
    same,
    armed limit idle (load limit idle now l) (idle_deadline limit idle now) (ground arith) refl,
  )
  | inr busy ↦ rw busy (same, inl (ground arith))
]

release-Fits :
    (limit : ℕ) (idle : Option ℕ) (l : Loop) (p : Place)
    → l.active ≡ l.live
    → 0 < l.live
    → Fits limit idle l p
    → Fits limit idle (release l) p
unfolding release
release-Fits limit idle l top same h fits = tt
release-Fits limit idle l (waiting (some d)) same h (none_live, e) = absurd (omega arith)
release-Fits limit idle l (waiting none) same h fits = elim (Bool-cases (l.active == 1)) [
  | inl last ↦ inr (inl (inr (rw last (omega arith))))
  | inr others ↦ inl (ground arith)
]
release-Fits limit idle l idled_out same h fits = absurd (omega arith)
release-Fits limit idle l failed same h fits = tt

notify-Fits :
    (limit : ℕ) (idle : Option ℕ) (l : Loop) (p : Place)
    → Fits limit idle l p
    → Fits limit idle (notify_one l) p
unfolding notify_one
notify-Fits limit idle l top fits = tt
notify-Fits limit idle l (waiting (some d)) fits = fits
notify-Fits limit idle l (waiting none) fits = inr (inl (inl refl))
notify-Fits limit idle l idled_out fits = fits
notify-Fits limit idle l failed fits = tt

Step-IsSound :
    {limit : ℕ} {idle : Option ℕ} {l m : Loop}
    → Step limit idle l m
    → IsSound limit idle l
    → IsSound limit idle m
unfolding accept end_at wake release notify_one
Step-IsSound {limit} {idle} (loads l now at) (same, fits) = loads-IsSound limit idle now l same
Step-IsSound {limit} {idle} (accepts l d at) (same, fits) = (omega arith, tt)
Step-IsSound {limit} {idle} (accept_fails l d at) (same, fits) = (same, tt)
Step-IsSound {limit} {idle} (idles_out l d now at late) (same, fits) =
    (same, (subst (λ (p : Place). Fits limit idle l p) at fits).0)
Step-IsSound {limit} {idle} (wakes l at permitted) (same, fits) = (same, tt)
Step-IsSound {limit} {idle} (releases l held) (same, fits) =
    (omega arith, release-Fits limit idle l l.place same held fits)
Step-IsSound {limit} {idle} (notifies l n) (same, fits) =
    (same, notify-Fits limit idle l l.place fits)

-- In every state of the accept loop, however connections come and end, the counter is the number
-- of live connections; the loop has a deadline only while no connection is live, and it is the one
-- of the instant at which it found none; it has idled out only with none live; and while it waits
-- without a deadline although none is live, a wake-up is on its way, unless there was no idle time
-- to wait for or the clock could not hold its end.
pub Reach-IsSound :
    {limit : ℕ} {idle : Option ℕ} {l : Loop} → Reach limit idle l → IsSound limit idle l
Reach-IsSound here = (refl, tt)
Reach-IsSound (next r s) = Step-IsSound s (Reach-IsSound r)
