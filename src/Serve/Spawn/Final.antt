-- ===== src/Serve/Spawn/Final.antt =====
-- The steps of `pre_exec` in a row, for sources wherever the parent had free descriptors.
use shell_proxy.Prelude.{
  ℕ, ◌≤◌, ◌≡◌, refl, sym, ◌∙◌, List, [], ◌∷◌, All, Option, some, false, ◌==◌, arith,
}
use shell_proxy.Serve.Spawn.{
  Descriptor, Table, set, kept, dup2, park, relocate, close_all, Sources, sources, targets, swept,
  pre_exec,
}
use shell_proxy.Serve.Spawn.Relocated.{
  IsOpen, IsFresh, HasRoom, park-IsParked, relocate-HasLanded, IsApart, IsDistinct, close_all_low,
  clear_flags-Keeps, Delivered, parked-Delivered, parked-IsReady, parked-SameLength, ready_above,
  low_set,
}

-- The sources are open, above the parent's own standard input, output and error.
abbrev pub IsSource : Table → ℕ → Type 0
IsSource t n = (3 ≤ n) × IsOpen t n

abbrev pub AreSources : Table → Sources → Type 0
AreSources t s = IsSource t s.in_fd × IsSource t s.out_fd × All (IsSource t) (sources s)

apart_two : (n m : ℕ) → 3 ≤ n → m ≤ 1 → (n == m) ≡ false
apart_two n m h g = ground arith

dup2_low :
    (n m : ℕ) (x : Descriptor) (t : Table)
    → 3 ≤ n
    → m ≤ 1
    → t n ≡ some x
    → dup2 n m t ≡ some (set m (some (kept x)) t)
dup2_low n m x t h g e = rw (apart_two n m h g, e) refl

low-IsOpen :
    (t : Table) (a b : Descriptor) (ss : List ℕ)
    → All (IsSource t) ss
    → All (IsOpen (set 1 (some b) (set 0 (some a) t))) ss
low-IsOpen t a b [] h = tt
low-IsOpen t a b (s ∷ ss) ((above, (x, h)), hs) =
    ((x, low_set t s a b above ∙ h), low-IsOpen t a b ss hs)

low_Delivered :
    (t u : Table) (a b : Descriptor) (ss ds : List ℕ)
    → All (IsSource t) ss
    → Delivered (set 1 (some b) (set 0 (some a) t)) u ss ds
    → Delivered t u ss ds
low_Delivered t u a b [] ds h d = tt
low_Delivered t u a b (s ∷ ss) [] h d = d
low_Delivered t u a b (s ∷ ss) (n ∷ ds) ((above, o), hs) ((x, hx, hu), d) =
    ((x, sym (low_set t s a b above) ∙ hx, hu), low_Delivered t u a b ss ds hs d)

still_Delivered :
    (t u v : Table) (ss ds : List ℕ)
    → ((k : ℕ) (x : Descriptor) → k ≤ 11 → u k ≡ some (kept x) → v k ≡ some (kept x))
    → All (λ d. d ≤ 11) ds
    → Delivered t u ss ds
    → Delivered t v ss ds
still_Delivered t u v [] ds keeps low d = tt
still_Delivered t u v (s ∷ ss) [] keeps low d = d
still_Delivered t u v (s ∷ ss) (n ∷ ds) keeps (le, low) ((x, hx, hu), d) =
    ((x, hx, keeps n x le hu), still_Delivered t u v ss ds keeps low d)

targets_low : All (λ d. d ≤ 11) targets
targets_low =
    (omega arith, (omega arith, (omega arith, (omega arith, (omega arith, (omega arith, tt))))))

-- Parking, moving and closing deliver the sources and leave standard input and output.
abbrev AreMoved : (Table → Option ℕ) → Sources → Table → Type 0
AreMoved fresh s v =
    (ps : List ℕ) × (v2 : Table) × (w : Table) × (park fresh (sources s) v ≡ some (ps, v2))
    × (relocate ps targets v2 ≡ some w)
    × Delivered v (close_all ps w) (sources s) targets
    × ((k : ℕ) (x : Descriptor) → k ≤ 1 → v k ≡ some x → close_all ps w k ≡ some x)

low-IsApart : (k : ℕ) → k ≤ 1 → IsApart k targets
low-IsApart k h = (
  ground arith,
  (ground arith, (ground arith, (ground arith, (ground arith, (ground arith, tt))))),
)

targets-IsDistinct : IsDistinct targets
targets-IsDistinct = (
  (refl, (refl, (refl, (refl, (refl, tt))))),
  (
    (refl, (refl, (refl, (refl, tt)))),
    ((refl, (refl, (refl, tt))), ((refl, (refl, tt)), ((refl, tt), (tt, tt)))),
  ),
)

move_sources :
    (fresh : Table → Option ℕ)
    → IsFresh fresh
    → (s : Sources) (v : Table) → All (IsOpen v) (sources s)
    → HasRoom fresh (sources s) v
    → AreMoved fresh s v
move_sources fresh promise s v h room =
    let (ps, v2, parks, keeps, parked) = park-IsParked fresh promise (sources s) v h room in
    let ready = parked-IsReady v v2 (sources s) ps parked in
    let long = parked-SameLength v v2 (sources s) ps targets parked tt in
    let (w, moves, rest, landed) =
      relocate-HasLanded ps targets v2 ready targets_low targets-IsDistinct long in
    let above = ready_above v2 ps ready in
    let closed : (k : ℕ) → k ≤ 11 → close_all ps w k ≡ w k =
      λ k le. close_all_low ps w k above le in
    (
      ps,
      v2,
      w,
      parks,
      moves,
      still_Delivered v w (close_all ps w) (sources s) targets (λ k x le e. closed k le ∙ e)
          targets_low (parked-Delivered v v2 w (sources s) ps targets parked landed),
      (λ k x le e. closed k (omega arith) ∙ rest k (low-IsApart k le) ∙ keeps k x e),
    )

swept-IsOpen :
    (v u : Table) (s : Sources) → Delivered v u (sources s) targets → All (IsOpen u) swept
swept-IsOpen v u s
      (
        (a, ha, err),
        ((b, hb, rc), ((c, hc, cmd), ((d, hd, restore), ((e, he, cwd), ((f, hf, dump), end))))),
      ) =
    (
      (kept b, rc),
      ((kept c, cmd), ((kept d, restore), ((kept a, err), ((kept e, cwd), ((kept f, dump), tt))))),
    )

set_low :
    (n : ℕ) (x y : Descriptor) (t : Table) → 3 ≤ n → t n ≡ some y → set 0 (some x) t n ≡ some y
set_low n x y t h e = rw (apart_two n 0 h (omega arith)) e

-- With eight open sources anywhere from 3 on, a target of another among them, and room for six copies, `pre_exec` succeeds: each source's file stands in its target, 0 and 1 for the input and the output and 3 and 7 to 11 for the others, and stays open over the exec.
pub pre_exec-Gets :
    (fresh : Table → Option ℕ)
    → IsFresh fresh
    → (s : Sources) (t : Table) → AreSources t s
    → ((a b : Descriptor) → HasRoom fresh (sources s) (set 1 (some b) (set 0 (some a) t)))
    → (u : Table) × (pre_exec fresh s t ≡ some u)
      × Delivered t u (s.in_fd ∷ s.out_fd ∷ sources s) (0 ∷ 1 ∷ targets)
unfolding pre_exec
pre_exec-Gets fresh promise s t ((in_above, (a, ha)), (out_above, (b, hb)), h) room =
    let t2 : Table = set 1 (some (kept b)) (set 0 (some (kept a)) t) in
    let (ps, v2, w, parks, moves, got, low) =
      move_sources fresh promise s t2 (low-IsOpen t (kept a) (kept b) (sources s) h)
        (room (kept a) (kept b)) in
    let (u, clears, keeps) =
      clear_flags-Keeps swept (close_all ps w) (swept-IsOpen t2 (close_all ps w) s got) in
    let input = dup2_low s.in_fd 0 a t in_above (omega arith) ha in
    let output =
      dup2_low s.out_fd 1 b (set 0 (some (kept a)) t) out_above (omega arith)
        (set_low s.out_fd (kept a) b t out_above hb) in
    (
      u,
      rw (input, output, parks, moves) clears,
      (
        (a, ha, keeps 0 a (low 0 (kept a) (omega arith) refl)),
        (
          (b, hb, keeps 1 b (low 1 (kept b) (omega arith) refl)),
          low_Delivered t u (kept a) (kept b) (sources s) targets h (
              still_Delivered t2 (close_all ps w) u (sources s) targets (λ k x le e. keeps k x e)
                targets_low got),
        ),
      ),
    )
