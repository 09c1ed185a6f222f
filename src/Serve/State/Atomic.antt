-- ===== src/Serve/State/Atomic.antt =====
-- What a reader of a state file can see while crates/sp-serve/src/serve.rs saves a state.
use shell_proxy.Prelude.{
  ℕ, ◌≡◌, ◌≢◌, refl, sym, ap, subst, ◌∙◌, ◌⊎◌, inl, inr, List, [], ◌∷◌, ◌++◌, append_assoc, All,
  some, Option-cases, true, false, ◌&&◌, Bool-cases, ok, Text, codes, eq_text, eq_text_iff,
  is_empty, is_utf8, length, ltb, arith, if◌then◌else◌,
}
use shell_proxy.Proto.Frame.{Bytes}
use shell_proxy.Serve.Pipe.{state_cap}
use shell_proxy.Serve.State.{
  Files, get_file, remove_file, put_file, System, state_dir, state_file, temp_file, state_of,
  load_from, load_state, clean_up, rename_over, write_temp, is_missing, open_temp, save_in,
  save_state,
}

get-remove_other :
    (path name : Text) (fs : Files)
    → eq_text name path ≡ false
    → get_file path (remove_file name fs) ≡ get_file path fs
unfolding get_file remove_file
get-remove_other path name [] h = refl
get-remove_other path name ((n, c) ∷ fs) h = elim (Bool-cases (eq_text n name)) [
  | inl e ↦
      let other : eq_text n path ≡ false =
        subst (λ (x : Text). eq_text x path ≡ false) (sym ((eq_text_iff n name).0 e)) h in
      rw e (rw other (get-remove_other path name fs h))
  | inr e ↦ rw (e, get-remove_other path name fs h) refl
]

get-put_other :
    (path name : Text) (c : Bytes) (fs : Files)
    → eq_text name path ≡ false
    → get_file path (put_file name c fs) ≡ get_file path fs
unfolding get_file
get-put_other path name c fs h = rw h refl

get-put_same : (path : Text) (c : Bytes) (fs : Files) → get_file path (put_file path c fs) ≡ some c
unfolding get_file
get-put_same path c fs = let same = (eq_text_iff path path).1 refl in rw same refl

-- The last character tells the two names apart.
last_of : Text → ℕ
last_of [] = 0
last_of (c ∷ []) = c
last_of (c ∷ d ∷ s) = last_of (d ∷ s)

last_of-append : (s : Text) (c : ℕ) → last_of (s ++ c ∷ []) ≡ c
unfolding last_of
last_of-append [] c = refl
last_of-append (d ∷ []) c = refl
last_of-append (d ∷ e ∷ s) c = last_of-append (e ∷ s) c

EndsIn : ℕ → Text → Type 0
EndsIn c s = (start : Text) × (s ≡ start ++ c ∷ [])

EndsIn-append : (c : ℕ) (a s : Text) → EndsIn c s → EndsIn c (a ++ s)
unfolding EndsIn
EndsIn-append c a s (start, same) =
    (a ++ start, ap (λ x. a ++ x) same ∙ sym (append_assoc a start (c ∷ [])))

eq_text-EndsIn : (c d : ℕ) (s t : Text) → c ≢ d → EndsIn c s → EndsIn d t → eq_text s t ≡ false
unfolding EndsIn
eq_text-EndsIn c d s t h (a, hs) (b, ht) = elim (Bool-cases (eq_text s t)) [
  | inl e ↦
      let same : last_of (a ++ c ∷ []) ≡ last_of (b ++ d ∷ []) =
        ap last_of (sym hs ∙ (eq_text_iff s t).0 e ∙ ht) in
      absurd (h (sym (last_of-append a c) ∙ same ∙ last_of-append b d))
  | inr e ↦ e
]

temp-other :
    (sys : System) (home session : Text)
    → eq_text (temp_file sys home session) (state_file home session) ≡ false
unfolding EndsIn
temp-other sys home session =
    eq_text-EndsIn 112 101 (temp_file sys home session) (state_file home session) (omega arith)
      (EndsIn-append 112 (state_dir home ++ codes "." ++ session ++ codes "." ++ sys.pid)
        (codes ".tmp") (codes ".tm", refl))
      (EndsIn-append 101 (state_dir home ++ session) (codes ".state") (codes ".stat", refl))

-- The state file is as before, or holds the new state.
abbrev pub IsOldOrNew : Text → Bytes → Files → Files → Type 0
IsOldOrNew path state fs now =
    (get_file path now ≡ get_file path fs) ⊎ (get_file path now ≡ some state)

module _ (sys : System) (tmp path : Text) (state : Bytes) (old : Files)
    (apart : eq_text tmp path ≡ false) where
  put-IsOldOrNew :
      (c : Bytes) (fs : Files)
      → IsOldOrNew path state old fs
      → IsOldOrNew path state old (put_file tmp c fs)
  put-IsOldOrNew c fs h = rw (get-put_other path tmp c fs apart) h

  clean_up-All :
      (fs : Files)
      → IsOldOrNew path state old fs
      → All (IsOldOrNew path state old) (clean_up sys tmp fs)
  unfolding clean_up
  clean_up-All fs h = elim (Bool-cases sys.removes) [
    | inl e ↦ rw e (rw (get-remove_other path tmp fs apart) h, tt)
    | inr e ↦ rw e tt
  ]

  rename_over-All :
      (fs : Files)
      → IsOldOrNew path state old fs
      → All (IsOldOrNew path state old) (rename_over sys tmp path state fs)
  unfolding rename_over
  rename_over-All fs h = elim (Bool-cases sys.renames) [
    | inl e ↦ rw e (inr (get-put_same path state _), tt)
    | inr e ↦ rw e (clean_up-All (put_file tmp state fs) (put-IsOldOrNew state fs h))
  ]

  write_temp-All :
      (cs : List Bytes) (fs : Files)
      → IsOldOrNew path state old fs
      → All (IsOldOrNew path state old) (write_temp sys tmp path state cs fs)
  unfolding write_temp
  write_temp-All [] fs h = elim (Bool-cases sys.writes) [
    | inl e ↦ rw e (put-IsOldOrNew state fs h, rename_over-All fs h)
    | inr e ↦ rw e (clean_up-All fs h)
  ]
  write_temp-All (c ∷ cs) fs h = (put-IsOldOrNew c fs h, write_temp-All cs fs h)

  open_temp-All :
      (fs : Files)
      → IsOldOrNew path state old fs
      → All (IsOldOrNew path state old) (open_temp sys tmp path state fs)
  unfolding open_temp
  open_temp-All fs h = elim (Bool-cases (sys.opens && is_missing (get_file tmp fs))) [
    | inl e ↦ rw e (put-IsOldOrNew [] fs h, write_temp-All sys.while_writing fs h)
    | inr e ↦ rw e (clean_up-All fs h)
  ]

-- A state that a report gave: nonempty valid UTF-8.
abbrev pub IsState : Bytes → Type 0
IsState state = (is_utf8 state ≡ true) × (is_empty state ≡ false)

state_of-some :
    (state : Bytes)
    → ltb state_cap (length state) ≡ false
    → IsState state
    → state_of (some state) ≡ some state
unfolding state_of
state_of-some state short (valid, full) = rw (short, valid, full) refl

-- What a reader of the state gets.
abbrev pub IsRead : System → Text → Bytes → Files → Files → Type 0
IsRead sys session state fs now =
    (load_state sys session now ≡ load_state sys session fs)
    ⊎ (load_state sys session now ≡ ok (some state))

module _ (sys : System) (session : Text) (state : Bytes) (fs : Files) where
  load-IsOldOrNew :
      (home : Text) (now : Files)
      → sys.home ≡ some home
      → ltb state_cap (length state) ≡ false
      → IsState state
      → IsOldOrNew (state_file home session) state fs now
      → IsRead sys session state fs now
  unfolding load_state load_from
  load-IsOldOrNew home now at short valid (inl same) = inl (rw (at, same) refl)
  load-IsOldOrNew home now at short valid (inr same) = elim (Bool-cases sys.readable) [
    | inl e ↦ inr (rw (at, e, same, state_of-some state short valid) refl)
    | inr e ↦ inl (rw (at, e) refl)
  ]

  loads :
      (home : Text) (all_files : List Files)
      → sys.home ≡ some home
      → ltb state_cap (length state) ≡ false
      → IsState state
      → All (IsOldOrNew (state_file home session) state fs) all_files
      → All (IsRead sys session state fs) all_files
  loads home [] at short valid h = tt
  loads home (f ∷ files) at short valid (h, hs) =
      (load-IsOldOrNew home f at short valid h, loads home files at short valid hs)

  save_in-All :
      (home : Text)
      → All
          (IsOldOrNew (state_file home session) state fs)
          (save_in sys session state (some home) fs)
  unfolding save_in
  save_in-All home = elim (Bool-cases (sys.creates_dir && sys.sets_mode)) [
    | inl e ↦ rw e (
        open_temp-All sys (temp_file sys home session) (state_file home session) state fs
          (temp-other sys home session) fs (inl refl))
    | inr e ↦ rw e tt
  ]

-- A reader at any moment of the saving, whatever fails in it and whatever the temporary file holds
-- meanwhile, loads what it would have loaded before or the whole new state.
pub save_state-IsRead :
    (sys : System) (session : Text) (state : Bytes) (fs : Files)
    → IsState state
    → All (IsRead sys session state fs) (save_state sys session state fs)
unfolding save_state save_in
save_state-IsRead sys session state fs valid = (inl refl, later)
  where
    later :
        All
          (IsRead sys session state fs)
          (if ltb state_cap (length state) then [] else save_in sys session state sys.home fs)
    later = elim (Bool-cases (ltb state_cap (length state))) [
      | inl e ↦ rw e tt
      | inr e ↦ rw e elim (Option-cases sys.home) [
        | inl n ↦
            subst (λ h. All (IsRead sys session state fs) (save_in sys session state h fs)) (sym n)
              tt
        | inr (home, at) ↦
            subst (λ h. All (IsRead sys session state fs) (save_in sys session state h fs)) (sym at)
              (loads sys session state fs home (save_in sys session state (some home) fs) at e valid
                (save_in-All sys session state fs home))
      ]
    ]
