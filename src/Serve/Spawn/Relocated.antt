-- ===== src/Serve/Spawn/Relocated.antt =====
-- The descriptors of the child get the files of their sources.
use shell_proxy.Prelude.{
  ℕ, ◌≤◌, ◌≡◌, refl, sym, ap, ◌∙◌, List, [], ◌∷◌, All, Option, none, some, Bool, true, false,
  Bool-cases, inl, inr, ◌==◌, ==_iff, arith, if◌then◌else◌,
}
use shell_proxy.Serve.Spawn.{Descriptor, Table, set, kept, park, relocate, close_all, clear_flags}

abbrev pub IsOpen : Table → ℕ → Type 0
IsOpen t n = (x : Descriptor) × (t n ≡ some x)

-- What `F_DUPFD` promises: the descriptor it takes is free and stands from the floor `SCRATCH_FLOOR` on.
abbrev pub IsFresh : (Table → Option ℕ) → Type 0
IsFresh fresh = (t : Table) (n : ℕ) → fresh t ≡ some n → (12 ≤ n) × (t n ≡ none)

-- The table has room for a copy of each descriptor of a list.
abbrev pub HasRoom : (Table → Option ℕ) → List ℕ → Table → Type 0
HasRoom fresh [] t = Unit
HasRoom fresh (s ∷ ss) t =
    (n : ℕ) × (fresh t ≡ some n) × ((d : Descriptor) → HasRoom fresh ss (set n (some d) t))

abbrev pub Keeps : Table → Table → Type 0
Keeps t u = (k : ℕ) (x : Descriptor) → t k ≡ some x → u k ≡ some x

-- Each source's file is in the parked descriptor.
abbrev pub IsParked : Table → Table → List ℕ → List ℕ → Type 0
IsParked t u [] [] = Unit
IsParked t u [] (p ∷ ps) = ⊥
IsParked t u (s ∷ ss) [] = ⊥
IsParked t u (s ∷ ss) (p ∷ ps) =
    ((x : Descriptor) × (t s ≡ some x) × (u p ≡ some (kept x)) × (12 ≤ p)) × IsParked t u ss ps

set-Keeps : (n : ℕ) (d : Option Descriptor) (t : Table) → t n ≡ none → Keeps t (set n d t)
set-Keeps n d t free k x h = elim (Bool-cases (k == n)) [
  | inl e ↦ let same = (==_iff k n).0 e in let other : t n ≡ some x = rw same at h in cc
  | inr e ↦ rw e h
]

IsOpen-Keeps : (t u : Table) (ss : List ℕ) → Keeps t u → All (IsOpen t) ss → All (IsOpen u) ss
IsOpen-Keeps t u [] keeps h = tt
IsOpen-Keeps t u (s ∷ ss) keeps ((x, h), hs) = ((x, keeps s x h), IsOpen-Keeps t u ss keeps hs)

IsParked-Keeps :
    (t v u : Table) (ss ps : List ℕ)
    → Keeps t v
    → All (IsOpen t) ss
    → IsParked v u ss ps
    → IsParked t u ss ps
IsParked-Keeps t v u [] [] keeps h parked = tt
IsParked-Keeps t v u [] (p ∷ ps) keeps h parked = parked
IsParked-Keeps t v u (s ∷ ss) [] keeps h parked = parked
IsParked-Keeps t v u (s ∷ ss) (p ∷ ps) keeps ((y, hy), hs) ((x, hx, hp, le), parked) =
    let kept_open : v s ≡ some y = keeps s y hy in
    let same : x ≡ y = cc in
    ((x, hy ∙ ap some (sym same), hp, le), IsParked-Keeps t v u ss ps keeps hs parked)

module _ (fresh : Table → Option ℕ) (promise : IsFresh fresh) where
  pub park-IsParked :
      (ss : List ℕ) (t : Table)
      → All (IsOpen t) ss
      → HasRoom fresh ss t
      → (ps : List ℕ) × (u : Table) × (park fresh ss t ≡ some (ps, u))
        × Keeps t u
        × IsParked t u ss ps
  unfolding park
  park-IsParked [] t h room = ([], t, refl, (λ k x e. e), tt)
  park-IsParked (s ∷ ss) t ((x, hx), hs) (n, found, room) =
      let (above, free) = promise t n found in
      let v : Table = set n (some (kept x)) t in
      let keeps : Keeps t v = set-Keeps n (some (kept x)) t free in
      let (ps, u, rest, later, parked) =
        park-IsParked ss v (IsOpen-Keeps t v ss keeps hs) (room (kept x)) in
      (
        n ∷ ps,
        u,
        rw (hx, found, rest) refl,
        (λ k y e. later k y (keeps k y e)),
        ((x, hx, later n (kept x) (at_n n x t), above), IsParked-Keeps t v u ss ps keeps hs parked),
      )
    where
      at_n : (n : ℕ) (x : Descriptor) (t : Table) → set n (some (kept x)) t n ≡ some (kept x)
      at_n n x t = let same = (==_iff n n).1 refl in rw same refl

-- Parked descriptors that are ready to be moved, and where they land.
abbrev pub IsReady : Table → ℕ → Type 0
IsReady t p = (12 ≤ p) × IsOpen t p

abbrev pub IsApart : ℕ → List ℕ → Type 0
IsApart k = All (λ d. (k == d) ≡ false)

abbrev pub IsDistinct : List ℕ → Type 0
IsDistinct [] = Unit
IsDistinct (d ∷ ds) = IsApart d ds × IsDistinct ds

abbrev pub HasLanded : Table → Table → List ℕ → List ℕ → Type 0
HasLanded t u [] ds = Unit
HasLanded t u (p ∷ ps) [] = ⊥
HasLanded t u (p ∷ ps) (d ∷ ds) =
    ((y : Descriptor) × (t p ≡ some y) × (u d ≡ some (kept y))) × HasLanded t u ps ds

abbrev pub SameLength : List ℕ → List ℕ → Type 0
SameLength [] [] = Unit
SameLength [] (d ∷ ds) = ⊥
SameLength (p ∷ ps) [] = ⊥
SameLength (p ∷ ps) (d ∷ ds) = SameLength ps ds

above_low : (p d : ℕ) → 12 ≤ p → d ≤ 11 → (p == d) ≡ false
above_low p d h g = ground arith

low_above : (k p : ℕ) → k ≤ 11 → 12 ≤ p → (k == p) ≡ false
low_above k p g h = ground arith

set_other : (k n : ℕ) (x : Option Descriptor) (t : Table) → (k == n) ≡ false → set n x t k ≡ t k
set_other k n x t h = rw h refl

-- A write below the floor leaves what is parked.
set-IsReady :
    (d : ℕ) (x : Option Descriptor) (t : Table) (ps : List ℕ)
    → d ≤ 11
    → All (IsReady t) ps
    → All (IsReady (set d x t)) ps
set-IsReady d x t [] low h = tt
set-IsReady d x t (p ∷ ps) low ((above, (y, hy)), hs) =
    ((above, (y, rw (above_low p d above low) hy)), set-IsReady d x t ps low hs)

HasLanded-set :
    (d : ℕ) (x : Option Descriptor) (t u : Table) (ps ds : List ℕ)
    → d ≤ 11
    → All (IsReady t) ps
    → HasLanded (set d x t) u ps ds
    → HasLanded t u ps ds
HasLanded-set d x t u [] ds low h landed = tt
HasLanded-set d x t u (p ∷ ps) [] low h landed = landed
HasLanded-set d x t u (p ∷ ps) (e ∷ ds) low ((above, open_p), hs) ((y, hy, at), landed) =
    ((y, rw (above_low p d above low) at hy, at), HasLanded-set d x t u ps ds low hs landed)

pub relocate-HasLanded :
    (ps ds : List ℕ) (t : Table)
    → All (IsReady t) ps
    → All (λ d. d ≤ 11) ds
    → IsDistinct ds
    → SameLength ps ds
    → (u : Table) × (relocate ps ds t ≡ some u)
      × ((k : ℕ) → IsApart k ds → u k ≡ t k)
      × HasLanded t u ps ds
unfolding relocate
relocate-HasLanded [] [] t h low apart long = (t, refl, (λ k e. refl), tt)
relocate-HasLanded [] (d ∷ ds) t h low apart long = absurd long
relocate-HasLanded (p ∷ ps) [] t h low apart long = absurd long
relocate-HasLanded (p ∷ ps) (d ∷ ds) t ((above, (y, hy)), hs) (low, lows) (other, apart) long =
    let v : Table = set d (some (kept y)) t in
    let (u, moved, rest, landed) =
      relocate-HasLanded ps ds v (set-IsReady d (some (kept y)) t ps low hs) lows apart long in
    let same = (==_iff d d).1 refl in
    (
      u,
      rw (above_low p d above low, hy) moved,
      (λ k e. rest k e.1 ∙ set_other k d (some (kept y)) t e.0),
      (
        (y, hy, rest d other ∙ rw same refl),
        HasLanded-set d (some (kept y)) t u ps ds low hs landed,
      ),
    )

pub close_all_low :
    (ps : List ℕ) (t : Table) (k : ℕ) → All (λ p. 12 ≤ p) ps → k ≤ 11 → close_all ps t k ≡ t k
unfolding close_all
close_all_low [] t k h low = refl
close_all_low (p ∷ ps) t k (above, hs) low =
    close_all_low ps (set p none t) k hs low ∙ set_other k p none t (low_above k p low above)

set-IsOpen :
    (n : ℕ) (x : Descriptor) (t : Table) (ns : List ℕ)
    → All (IsOpen t) ns
    → All (IsOpen (set n (some x) t)) ns
set-IsOpen n x t [] h = tt
set-IsOpen n x t (k ∷ ns) ((y, hy), hs) = (still (k == n), set-IsOpen n x t ns hs)
  where
    still : (b : Bool) → (z : Descriptor) × ((if b then some x else t k) ≡ some z)
    still true = (x, refl)
    still false = (y, hy)

set-kept :
    (n : ℕ) (y : Descriptor) (t : Table) (k : ℕ) (x : Descriptor)
    → t n ≡ some y
    → t k ≡ some (kept x)
    → set n (some (kept y)) t k ≡ some (kept x)
set-kept n y t k x hy h = elim (Bool-cases (k == n)) [
  | inl e ↦
      let at : t n ≡ some (kept x) = rw ((==_iff k n).0 e) at h in
      let same : y ≡ kept x = cc in rw e (ap (λ d. some (kept d)) same)
  | inr e ↦ rw e h
]

pub clear_flags-Keeps :
    (ns : List ℕ) (t : Table)
    → All (IsOpen t) ns
    → (u : Table) × (clear_flags ns t ≡ some u)
      × ((k : ℕ) (x : Descriptor) → t k ≡ some (kept x) → u k ≡ some (kept x))
unfolding clear_flags
clear_flags-Keeps [] t h = (t, refl, (λ k x e. e))
clear_flags-Keeps (n ∷ ns) t ((y, hy), hs) =
    let v : Table = set n (some (kept y)) t in
    let (u, cleared, keeps) = clear_flags-Keeps ns v (set-IsOpen n (kept y) t ns hs) in
    (u, rw hy cleared, (λ k x e. keeps k x (set-kept n y t k x hy e)))

-- A source's file stands in its target, open over the exec.
abbrev pub Gets : Table → Table → ℕ → ℕ → Type 0
Gets t u src dst = (x : Descriptor) × (t src ≡ some x) × (u dst ≡ some (kept x))

abbrev pub Delivered : Table → Table → List ℕ → List ℕ → Type 0
Delivered t u [] ds = Unit
Delivered t u (s ∷ ss) [] = ⊥
Delivered t u (s ∷ ss) (d ∷ ds) = Gets t u s d × Delivered t u ss ds

pub parked-Delivered :
    (t v u : Table) (ss ps ds : List ℕ)
    → IsParked t v ss ps
    → HasLanded v u ps ds
    → Delivered t u ss ds
parked-Delivered t v u [] [] ds parked landed = tt
parked-Delivered t v u [] (p ∷ ps) ds parked landed = absurd parked
parked-Delivered t v u (s ∷ ss) [] ds parked landed = absurd parked
parked-Delivered t v u (s ∷ ss) (p ∷ ps) [] parked landed = absurd landed
parked-Delivered t v u (s ∷ ss) (p ∷ ps) (d ∷ ds) ((x, hx, hp, above), parked)
      ((y, hy, at), landed) =
    let same : y ≡ kept x = cc in
    ((x, hx, at ∙ ap (λ z. some (kept z)) same), parked-Delivered t v u ss ps ds parked landed)

pub parked-IsReady : (t v : Table) (ss ps : List ℕ) → IsParked t v ss ps → All (IsReady v) ps
parked-IsReady t v [] [] h = tt
parked-IsReady t v [] (p ∷ ps) h = absurd h
parked-IsReady t v (s ∷ ss) [] h = absurd h
parked-IsReady t v (s ∷ ss) (p ∷ ps) ((x, hx, hp, above), h) =
    ((above, (kept x, hp)), parked-IsReady t v ss ps h)

pub ready_above : (v : Table) (ps : List ℕ) → All (IsReady v) ps → All (λ p. 12 ≤ p) ps
ready_above v [] h = tt
ready_above v (p ∷ ps) ((above, o), h) = (above, ready_above v ps h)

pub parked-SameLength :
    (t v : Table) (ss ps ds : List ℕ) → IsParked t v ss ps → SameLength ss ds → SameLength ps ds
parked-SameLength t v [] [] ds h long = long
parked-SameLength t v [] (p ∷ ps) ds h long = absurd h
parked-SameLength t v (s ∷ ss) [] ds h long = absurd h
parked-SameLength t v (s ∷ ss) (p ∷ ps) [] h long = absurd long
parked-SameLength t v (s ∷ ss) (p ∷ ps) (d ∷ ds) (x, h) long = parked-SameLength t v ss ps ds h long

-- Standard input and output are set first; the sources stand above them.
pub low_set :
    (t : Table) (n : ℕ) (a b : Descriptor) → 3 ≤ n → set 1 (some b) (set 0 (some a) t) n ≡ t n
low_set t n a b h =
    let e0 : (n == 0) ≡ false = ground arith in
    let e1 : (n == 1) ≡ false = ground arith in rw (e1, e0) refl
