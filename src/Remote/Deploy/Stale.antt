-- ===== src/Remote/Deploy/Stale.antt =====
-- Which paths the removal of `cleanup_stale` in src/remote.rs names.
use shell_proxy.Prelude.{
  ℕ, ◌≡◌, ◌≢◌, refl, sym, ap, subst, ◌∙◌, ◌⊎◌, inl, inr, List, [], ◌∷◌, ◌++◌, map, append_assoc,
  append-nil, all, All, All-append, Bool, true, false, not, ◌&&◌, ◌||◌, Bool-cases, Result, ok, err,
  Text, codes, ◌==◌, ==_iff, if◌then◌else◌, eq_text, eq_text_iff, starts_with, lines, trim,
  from_utf8_lossy,
}
use shell_proxy.Proto.Frame.{Bytes}
use shell_proxy.Remote.Shell.{
  Request, RemoteError, done, Shell, ◌>>=◌, proceed_with, pure, exec_collect, exec_status,
}
use shell_proxy.Remote.Deploy.{
  Host, serve_dir, in_dir, is_safe, tool_generated, filter, base_name, listed_stale, found_stale,
  join, remove, find_command, cleanup_stale,
}

-- A name as the tool makes them.
abbrev pub IsGenerated : Text → Type 0
IsGenerated name =
    ((rest : Text) × ((name ≡ codes "sp-serve-" ++ rest) ⊎ (name ≡ codes ".upload-" ++ rest)))
    × All (λ c. is_safe c ≡ true) name

abbrev pub IsStale : Text → Text → Type 0
IsStale keep path =
    ((name : Text) × (path ≡ in_dir name) × (name ≢ keep) × IsGenerated name)
    ⊎ IsGenerated (base_name path)

abbrev pub IsCleaning : Text → Request → Type 0
IsCleaning keep q =
    (q.command ≡ codes "ls " ++ serve_dir)
    ⊎ ((q.command ≡ find_command)
        ⊎ ((paths : List Text) × (q.command ≡ codes "rm -f " ++ join paths)
            × All (IsStale keep) paths))

-- The requests that a run adds to `h`.
abbrev pub Adds :
    {A : Type 0} → (Request → Type 0) → List Request → List Request × Result A RemoteError → Type 0
Adds P h (k, r) = (new : List Request) × (k ≡ h ++ new) × All P new

Adds-pure : {A : Type 0} (P : Request → Type 0) (a : A) (h : List Request) → Adds P h (pure a h)
Adds-pure P a h = ([], sym (append-nil h), tt)

Adds->>= :
    {A B : Type 0} (P : Request → Type 0) (m : Shell A) (next : A → Shell B) (h : List Request)
    → Adds P h (m h)
    → ((a : A) (g : List Request) → Adds P g (next a g))
    → Adds P h ((m >>= next) h)
Adds->>= P m next h = pair (m h)
  where
    pair :
        (p : List Request × Result _ RemoteError)
        → Adds P h p
        → ((a : _) (g : List Request) → Adds P g (next a g))
        → Adds P h (proceed_with p next)
    pair (g, ok a) (new, same, hn) rest =
        let (more, last, hm) = rest a g in
        (
          new ++ more,
          last ∙ ap (λ x. x ++ more) same ∙ append_assoc h new more,
          All-append P new more hn hm,
        )
    pair (g, err e) (new, same, hn) rest = (new, same, hn)

Adds-exec_collect :
    (P : Request → Type 0) (host : Host) (cmd : Text) (h : List Request)
    → P (record { command = cmd; input = [] })
    → Adds P h (exec_collect host.answer cmd h)
unfolding exec_collect
Adds-exec_collect P host cmd h hp = (record { command = cmd; input = [] } ∷ [], refl, (hp, tt))

starts_with-rest : (p s : Text) → starts_with p s ≡ true → (rest : Text) × (s ≡ p ++ rest)
starts_with-rest [] s h = (s, refl)
starts_with-rest (c ∷ p) [] h = cc
starts_with-rest (c ∷ p) (d ∷ s) h = elim (Bool-cases (c == d)) [
  | inl e ↦
      let (rest, same) = starts_with-rest p s (rw e at h) in
      (rest, rw (same, (==_iff c d).0 e) refl)
  | inr e ↦ let given = rw e at h in cc
]

all-All : (p : ℕ → Bool) (s : Text) → all p s ≡ true → All (λ c. p c ≡ true) s
all-All p [] h = tt
all-All p (c ∷ s) h = elim (Bool-cases (p c)) [
  | inl e ↦ (e, all-All p s (rw e at h))
  | inr e ↦ let given = rw e at h in cc
]

and_true : (a b : Bool) → a && b ≡ true → (a ≡ true) × (b ≡ true)
and_true true b h = (refl, h)
and_true false b h = cc

either : (a b : Bool) → a || b ≡ true → (a ≡ true) ⊎ (b ≡ true)
either true b h = inl refl
either false b h = inr h

tool_generated-IsGenerated : (name : Text) → tool_generated name ≡ true → IsGenerated name
unfolding tool_generated
tool_generated-IsGenerated name h =
    let (prefix, safe) = and_true _ _ h in
    elim (either _ _ prefix) [
      | inl e ↦
          let (rest, same) = starts_with-rest (codes "sp-serve-") name e in
          ((rest, inl same), all-All is_safe name safe)
      | inr e ↦
          let (rest, same) = starts_with-rest (codes ".upload-") name e in
          ((rest, inr same), all-All is_safe name safe)
    ]

filter-All :
    (p : Text → Bool) (P : Text → Type 0) (f : Text → Text) (ts : List Text)
    → ((t : Text) → p t ≡ true → P (f t))
    → All P (map f (filter p ts))
filter-All p P f [] h = tt
filter-All p P f (t ∷ ts) h = elim (Bool-cases (p t)) [
  | inl e ↦ rw e (h t e, filter-All p P f ts h)
  | inr e ↦ rw e (filter-All p P f ts h)
]

map-id : (ts : List Text) → map (λ t. t) ts ≡ ts
map-id [] = refl
map-id (t ∷ ts) = ap (λ us. t ∷ us) (map-id ts)

listed_stale-All : (keep : Text) (out : Bytes) → All (IsStale keep) (listed_stale keep out)
unfolding listed_stale
listed_stale-All keep out =
    filter-All (λ n. not (eq_text n keep) && tool_generated n) (IsStale keep) in_dir
      (map trim (lines (from_utf8_lossy out)))
      (λ n h.
        let (other, made) = and_true _ _ h in
        inl (n, refl, not_kept n other, tool_generated-IsGenerated n made))
  where
    not_kept : (n : Text) → not (eq_text n keep) ≡ true → n ≢ keep
    not_kept n h same = let equal = (eq_text_iff n keep).1 same in let given = rw equal at h in cc

found_stale-All : (keep : Text) (out : Bytes) → All (IsStale keep) (found_stale out)
unfolding found_stale
found_stale-All keep out =
    subst (λ (ts : List Text). All (IsStale keep) ts) (map-id _)
      (filter-All (λ p. tool_generated (base_name p)) (IsStale keep) (λ t. t)
        (map trim (lines (from_utf8_lossy out)))
        (λ p h. inr (tool_generated-IsGenerated (base_name p) h)))

found_if :
    (keep : Text) (b : Bool) (out : Bytes) → All (IsStale keep) (if b then found_stale out else [])
found_if keep true out = found_stale-All keep out
found_if keep false out = tt

remove-Adds :
    (host : Host) (keep : Text) (paths : List Text) (h : List Request)
    → All (IsStale keep) paths
    → Adds (IsCleaning keep) h (remove host paths h)
unfolding remove exec_status
remove-Adds host keep [] h hp = Adds-pure (IsCleaning keep) done h
remove-Adds host keep (p ∷ ps) h hp =
    Adds->>= (IsCleaning keep) (exec_collect host.answer (codes "rm -f " ++ join (p ∷ ps))) _ h
      (Adds-exec_collect (IsCleaning keep) host (codes "rm -f " ++ join (p ∷ ps)) h
        (inr (inr (p ∷ ps, refl, hp))))
      (λ c g. elim (Bool-cases (c.0 == 0)) [
        | inl e ↦ rw e (Adds-pure (IsCleaning keep) done g)
        | inr e ↦ rw e ([], sym (append-nil g), tt)
      ])

-- Whatever the host answers, the cleanup asks for nothing but the two listings and one `rm -f`. Of
-- the list that is joined, without quotes, behind it: a path in the directory of the tool has a name with one of the tool's two
-- prefixes and only letters, digits, `-`, `_` and `.`, and not the name that is kept; of any other
-- path, which `find` has printed, this holds of the last component.
pub cleanup_stale-IsCleaning :
    (host : Host) (keep : Text) (h : List Request)
    → Adds (IsCleaning keep) h (cleanup_stale host keep h)
unfolding cleanup_stale
cleanup_stale-IsCleaning host keep h =
    Adds->>= (IsCleaning keep) (exec_collect host.answer (codes "ls " ++ serve_dir)) _ h
      (Adds-exec_collect (IsCleaning keep) host (codes "ls " ++ serve_dir) h (inl refl))
      (λ c g. elim (Bool-cases (c.0 == 0)) [
        | inr e ↦ rw e (Adds-pure (IsCleaning keep) done g)
        | inl e ↦ rw e (
            Adds->>= (IsCleaning keep) (exec_collect host.answer find_command) _ g
              (Adds-exec_collect (IsCleaning keep) host find_command g (inr (inl refl)))
              (λ f k.
                remove-Adds host keep
                  (listed_stale keep c.1 ++ (if f.0 == 0 then found_stale f.1 else [])) k
                  (All-append (IsStale keep) (listed_stale keep c.1) _ (listed_stale-All keep c.1)
                    (found_if keep (f.0 == 0) f.1))))
      ])
