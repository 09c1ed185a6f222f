-- ===== src/Daemon/Order/Alone.antt =====
-- One session of the daemon in any interleaving with the others.
use shell_proxy.Prelude.{
  ◌≡◌, refl, sym, subst, inl, inr, List, [], ◌∷◌, ◌++◌, Option, none, some, Bool, true, false, ◌&&◌,
  Bool-cases, Text, eq_text_iff, if◌then◌else◌,
}
use shell_proxy.Daemon.Shared.{
  SessionKey, Sessions, eq_key, cwd_of, has_session, get_session, set_cwd,
}
use shell_proxy.Daemon.Exec.{or_else}
use shell_proxy.Daemon.Order.{
  Locked, Event, entered, started, ended, with_lock, store, Step, enter, start, finish, Run,
  nothing, then_step,
}

abbrev key_of : Event → SessionKey
key_of (entered k) = k
key_of (started k asked cwd) = k
key_of (ended k cwd) = k

-- A session alone: its directory, and whether a command of it is running.
pub data Alone (k : SessionKey) : List Event → Option Text → Bool → Type 0 where
  fresh : Alone k [] none false
  aside :
      (es : List Event) (e : Event) (c : Option Text) (b : Bool)
      → eq_key (key_of e) k ≡ false
      → Alone k es c b
      → Alone k (es ++ e ∷ []) c b
  looked_up :
      (es : List Event) (c : Option Text) (b : Bool)
      → Alone k es c b
      → Alone k (es ++ entered k ∷ []) c b
  runs :
      (es : List Event) (c asked : Option Text)
      → Alone k es c false
      → Alone k (es ++ started k asked (or_else asked c) ∷ []) c true
  stays :
      (es : List Event) (c : Option Text)
      → Alone k es c true
      → Alone k (es ++ ended k none ∷ []) c false
  moves :
      (es : List Event) (c : Option Text) (d : Text)
      → Alone k es c true
      → Alone k (es ++ ended k (some d) ∷ []) (some d) false

both : (a b : Bool) → a && b ≡ true → (a ≡ true) × (b ≡ true)
both true b h = (refl, h)
both false b h = cc

eq_key-≡ : (a b : SessionKey) → eq_key a b ≡ true → a ≡ b
unfolding eq_key
eq_key-≡ a b h =
    let (hosts, names) = both _ _ h in
    let h1 : a.host ≡ b.host = (eq_text_iff a.host b.host).0 hosts in
    let h2 : a.session.name ≡ b.session.name =
      (eq_text_iff a.session.name b.session.name).0 names in
    λ i. record { host = h1 i; session = record { name = h2 i } }

eq_key_refl : (k : SessionKey) → eq_key k k ≡ true
unfolding eq_key
eq_key_refl k =
    rw ((eq_text_iff k.host k.host).1 refl, (eq_text_iff k.session.name k.session.name).1 refl) refl

-- No entry, no directory.
cwd_of-none : (k : SessionKey) (ss : Sessions) → has_session k ss ≡ false → cwd_of k ss ≡ none
unfolding cwd_of has_session
cwd_of-none k [] h = refl
cwd_of-none k ((j, c) ∷ ss) h = elim (Bool-cases (eq_key j k)) [
  | inl e ↦ let given = rw e at h in cc
  | inr e ↦ rw e (cwd_of-none k ss (rw e at h))
]

cwd_of-get_session : (k j : SessionKey) (ss : Sessions) → cwd_of k (get_session j ss) ≡ cwd_of k ss
unfolding get_session cwd_of
cwd_of-get_session k j ss = elim (Bool-cases (has_session j ss)) [
  | inl h ↦ rw h refl
  | inr h ↦ rw h elim (Bool-cases (eq_key j k)) [
    | inl e ↦ rw e (
        sym (
          cwd_of-none k ss
            (subst (λ (x : SessionKey). has_session x ss ≡ false) (eq_key-≡ j k e) h)))
    | inr e ↦ rw e refl
  ]
]

cwd_of-set_cwd :
    (k : SessionKey) (d : Text) (ss : Sessions)
    → has_session k ss ≡ true
    → cwd_of k (set_cwd k d ss) ≡ some d
unfolding set_cwd cwd_of has_session
cwd_of-set_cwd k d [] h = cc
cwd_of-set_cwd k d ((j, c) ∷ ss) h = elim (Bool-cases (eq_key j k)) [
  | inl e ↦ rw e (rw e refl)
  | inr e ↦ rw e (rw e (cwd_of-set_cwd k d ss (rw e at h)))
]

has-set_cwd :
    (k j : SessionKey) (d : Text) (ss : Sessions)
    → has_session k (set_cwd j d ss) ≡ has_session k ss
unfolding set_cwd has_session
has-set_cwd k j d [] = refl
has-set_cwd k j d ((i, c) ∷ ss) = elim (Bool-cases (eq_key i j)) [
  | inl e ↦ rw e refl
  | inr e ↦ rw (e, has-set_cwd k j d ss) refl
]

always : (b : Bool) → (if b then true else true) ≡ true
always true = refl
always false = refl

has-get_session :
    (k j : SessionKey) (ss : Sessions)
    → has_session k ss ≡ true
    → has_session k (get_session j ss) ≡ true
unfolding get_session has_session
has-get_session k j ss h = elim (Bool-cases (has_session j ss)) [
  | inl e ↦ rw e h
  | inr e ↦ rw (e, h) (always (eq_key j k))
]

cwd_of-set_cwd_other :
    (k j : SessionKey) (d : Text) (ss : Sessions)
    → eq_key j k ≡ false
    → cwd_of k (set_cwd j d ss) ≡ cwd_of k ss
unfolding set_cwd cwd_of
cwd_of-set_cwd_other k j d [] h = refl
cwd_of-set_cwd_other k j d ((i, c) ∷ ss) h = elim (Bool-cases (eq_key i j)) [
  | inl e ↦
      let other : eq_key i k ≡ false =
        subst (λ (x : SessionKey). eq_key x k ≡ false) (sym (eq_key-≡ i j e)) h in
      rw e (rw other refl)
  | inr e ↦ rw (e, cwd_of-set_cwd_other k j d ss h) refl
]

-- What a step does to one session's part of the state.
abbrev IsAlone : SessionKey → List Event → Locked → Type 0
IsAlone k es s =
    Alone k es (cwd_of k s.sessions) (s.held k)
    × ((s.held k ≡ true) → has_session k s.sessions ≡ true)

module _ (k : SessionKey) (es : List Event) where
  enter-IsAlone :
      (key : SessionKey) (s : Locked)
      → IsAlone k es s
      → IsAlone k (es ++ entered key ∷ []) (record s { sessions = get_session key s.sessions })
  enter-IsAlone key s (alone, kept) = (
    rw (cwd_of-get_session k key s.sessions) elim (Bool-cases (eq_key key k)) [
      | inl e ↦ rw (eq_key-≡ key k e) (looked_up es (cwd_of k s.sessions) (s.held k) alone)
      | inr e ↦ aside es (entered key) (cwd_of k s.sessions) (s.held k) e alone
    ],
    λ h. has-get_session k key s.sessions (kept h),
  )

  -- The steps of the session itself.
  start_own :
      (asked : Option Text) (s : Locked)
      → has_session k s.sessions ≡ true
      → s.held k ≡ false
      → IsAlone k es s
      → IsAlone k
          (es ++ started k asked (or_else asked (cwd_of k s.sessions)) ∷ [])
          (record s { held = with_lock k true s.held })
  unfolding with_lock
  start_own asked s there free (alone, kept) = rw (eq_key_refl k) (
    runs es (cwd_of k s.sessions) asked
        (subst (λ b. Alone k es (cwd_of k s.sessions) b) free alone),
    λ h. there,
  )

  finish_own :
      (new_cwd : Option Text) (s : Locked)
      → s.held k ≡ true
      → IsAlone k es s
      → IsAlone k
          (es ++ ended k new_cwd ∷ [])
          (record { sessions = store k new_cwd s.sessions; held = with_lock k false s.held })
  unfolding with_lock store
  finish_own none s busy (alone, kept) = rw (eq_key_refl k) (
    stays es (cwd_of k s.sessions) (subst (λ b. Alone k es (cwd_of k s.sessions) b) busy alone),
    λ h. kept busy,
  )
  finish_own (some d) s busy (alone, kept) =
      rw (eq_key_refl k, cwd_of-set_cwd k d s.sessions (kept busy), has-set_cwd k k d s.sessions)
        (
          moves es (cwd_of k s.sessions) d
              (subst (λ b. Alone k es (cwd_of k s.sessions) b) busy alone),
          λ h. kept busy,
        )

  start-IsAlone :
      (key : SessionKey) (asked : Option Text) (s : Locked)
      → has_session key s.sessions ≡ true
      → s.held key ≡ false
      → IsAlone k es s
      → IsAlone k
          (es ++ started key asked (or_else asked (cwd_of key s.sessions)) ∷ [])
          (record s { held = with_lock key true s.held })
  unfolding with_lock
  start-IsAlone key asked s there free h = elim (Bool-cases (eq_key key k)) [
    | inl e ↦
        let same = sym (eq_key-≡ key k e) in
        subst
          (λ x.
            IsAlone k (es ++ started x asked (or_else asked (cwd_of x s.sessions)) ∷ [])
              (record s { held = with_lock x true s.held }))
          same (start_own asked s (rw same there) (rw same free) h)
    | inr e ↦ rw e (
      aside es (started key asked (or_else asked (cwd_of key s.sessions))) (cwd_of k s.sessions)
          (s.held k) e h.0,
      h.1,
    )
  ]

  finish_aside :
      (key : SessionKey) (new_cwd : Option Text) (s : Locked)
      → eq_key key k ≡ false
      → IsAlone k es s
      → IsAlone k
          (es ++ ended key new_cwd ∷ [])
          (record { sessions = store key new_cwd s.sessions; held = with_lock key false s.held })
  unfolding with_lock store
  finish_aside key none s e (alone, kept) =
      rw e (aside es (ended key none) (cwd_of k s.sessions) (s.held k) e alone, kept)
  finish_aside key (some d) s e (alone, kept) =
      rw (e, cwd_of-set_cwd_other k key d s.sessions e, has-set_cwd k key d s.sessions)
        (aside es (ended key (some d)) (cwd_of k s.sessions) (s.held k) e alone, kept)

  finish-IsAlone :
      (key : SessionKey) (new_cwd : Option Text) (s : Locked)
      → s.held key ≡ true
      → IsAlone k es s
      → IsAlone k
          (es ++ ended key new_cwd ∷ [])
          (record { sessions = store key new_cwd s.sessions; held = with_lock key false s.held })
  finish-IsAlone key new_cwd s busy h = elim (Bool-cases (eq_key key k)) [
    | inl e ↦
        let same = sym (eq_key-≡ key k e) in
        subst
          (λ x.
            IsAlone k (es ++ ended x new_cwd ∷ [])
              (record { sessions = store x new_cwd s.sessions; held = with_lock x false s.held }))
          same (finish_own new_cwd s (rw same busy) h)
    | inr e ↦ finish_aside key new_cwd s e h
  ]

step-IsAlone :
    (k : SessionKey) (es : List Event) (s : Locked) (e : Event) (t : Locked)
    → Step s e t
    → IsAlone k es s
    → IsAlone k (es ++ e ∷ []) t
step-IsAlone k es s e t (enter key _) h = enter-IsAlone k es key s h
step-IsAlone k es s e t (start key asked _ there free) h =
    start-IsAlone k es key asked s there free h
step-IsAlone k es s e t (finish key new_cwd _ busy) h = finish-IsAlone k es key new_cwd s busy h

run-IsAlone : (k : SessionKey) (es : List Event) (s : Locked) → Run es s → IsAlone k es s
unfolding cwd_of
run-IsAlone k es s nothing = (fresh, λ h. cc)
run-IsAlone k _ t (then_step es e s _ run step) =
    step-IsAlone k es s e t step (run-IsAlone k es s run)

-- However the executions of all sessions interleave, one session goes through whole executions, one
-- after the other: each starts in the directory that its request names or else in the one that
-- the last report with a directory left, and the table holds that directory for the next one.
pub run-Alone :
    (k : SessionKey) (es : List Event) (s : Locked)
    → Run es s
    → Alone k es (cwd_of k s.sessions) (s.held k)
run-Alone k es s run = (run-IsAlone k es s run).0
