-- ===== src/Daemon/Idle.antt =====
-- The accept loop of `run` in src/daemon.rs with `ActiveGuard` and the idle timer. A connection
-- that ends takes its guard down in two steps, between which anything may happen. Instants are
-- milliseconds of a clock that ends at a limit.
pub mod Sound
use shell_proxy.Prelude.{
  ℕ, ◌+◌, ◌-◌, ◌*◌, ◌≤◌, ◌<◌, ◌≡◌, ◌==◌, Bool, true, false, Option, none, some, if◌then◌else◌, leb,
}

-- Where the loop is: at its top, in its `select!` with a deadline or without one, or ended.
pub data Place : Type 0 where
  top : Place
  waiting : Option ℕ → Place
  idled_out : Place
  failed : Place

-- `permit` is the one that `Notify` holds. `live` counts the guards that are held, `notifying`
-- those whose drop has found the count at one and has not notified yet. `loaded_at` is the
-- instant at which the loop last read the count.
pub record Loop : Type 0 where
  pub place : Place
  pub active : ℕ
  pub permit : Bool
  pub live : ℕ
  pub notifying : ℕ
  pub loaded_at : ℕ

abbrev pub new_loop : Loop
new_loop = record {
  place = top;
  active = 0;
  permit = false;
  live = 0;
  notifying = 0;
  loaded_at = 0;
}

-- `idle.and_then(deadline_after)`
unfoldable pub idle_deadline : ℕ → Option ℕ → ℕ → Option ℕ
idle_deadline limit none now = none
idle_deadline limit (some secs) now =
    if leb (now + secs * 1000) limit then some (now + secs * 1000) else none

-- The top of the loop.
unfoldable pub load : ℕ → Option ℕ → ℕ → Loop → Loop
unfolding idle_deadline
load limit idle now l = record l {
  place = waiting (if l.active == 0 then idle_deadline limit idle now else none);
  loaded_at = now;
}

-- An accepted connection, with `ActiveGuard::acquire`.
unfoldable pub accept : Loop → Loop
accept l = record l { place = top; active = l.active + 1; live = l.live + 1 }

-- The `fetch_sub` of a guard, and the notification behind it.
unfoldable pub release : Loop → Loop
release l = record l {
  active = l.active - 1;
  live = l.live - 1;
  notifying = if l.active == 1 then l.notifying + 1 else l.notifying;
}

unfoldable pub notify_one : Loop → Loop
notify_one l = record l { permit = true; notifying = l.notifying - 1 }

unfoldable pub wake : Loop → Loop
wake l = record l { place = top; permit = false }

unfoldable pub end_at : Place → Loop → Loop
end_at p l = record l { place = p }

-- A step of the loop or of a connection's end. A branch of the `select!` has its guard.
pub data Step (limit : ℕ) (idle : Option ℕ) : Loop → Loop → Type 0 where
  loads : (l : Loop) (now : ℕ) → l.place ≡ top → Step limit idle l (load limit idle now l)
  accepts : (l : Loop) (d : Option ℕ) → l.place ≡ waiting d → Step limit idle l (accept l)
  accept_fails :
      (l : Loop) (d : Option ℕ) → l.place ≡ waiting d → Step limit idle l (end_at failed l)
  idles_out :
      (l : Loop) (d now : ℕ)
      → l.place ≡ waiting (some d)
      → d ≤ now
      → Step limit idle l (end_at idled_out l)
  wakes : (l : Loop) → l.place ≡ waiting none → l.permit ≡ true → Step limit idle l (wake l)
  releases : (l : Loop) → 0 < l.live → Step limit idle l (release l)
  notifies : (l : Loop) → 0 < l.notifying → Step limit idle l (notify_one l)

pub data Reach (limit : ℕ) (idle : Option ℕ) : Loop → Type 0 where
  here : Reach limit idle new_loop
  next : {l m : Loop} → Reach limit idle l → Step limit idle l m → Reach limit idle m
