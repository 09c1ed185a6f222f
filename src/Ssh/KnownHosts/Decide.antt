-- ===== src/Ssh/KnownHosts/Decide.antt =====
-- When src/ssh.rs accepts a host key, from the checks of the known_hosts files.
use shell_proxy.Prelude.{◌≡◌, ◌↔◌, refl, ap, Bool, true, false, List, [], ◌∷◌, ◌++◌, All}
use shell_proxy.Ssh.KnownHosts.{
  KnownHostCheck, matched, absent, changed, revoked_at, malformed, accept, unrecorded, decide_files,
  decide_host_key,
}

-- The first check that decides is a match, and the files in front of it have no entry.
abbrev pub IsFound : List KnownHostCheck → Type 0
IsFound checks =
    (front : List KnownHostCheck) × (back : List KnownHostCheck) × (checks
      ≡ front ++ matched ∷ back)
    × All (λ c. c ≡ absent) front

decide_files-accept :
    (some_checked : Bool) (cs : List KnownHostCheck)
    → decide_files true some_checked cs ≡ accept
    → IsFound cs
unfolding decide_files unrecorded
decide_files-accept true [] h = cc
decide_files-accept false [] h = cc
decide_files-accept b (matched ∷ cs) h = ([], cs, refl, tt)
decide_files-accept b (absent ∷ cs) h =
    let (front, back, split, quiet) = decide_files-accept true cs h in
    (absent ∷ front, back, ap (λ (l : List KnownHostCheck). absent ∷ l) split, (refl, quiet))
decide_files-accept b (changed n ∷ cs) h = cc
decide_files-accept b (revoked_at n ∷ cs) h = cc
decide_files-accept b (malformed d ∷ cs) h = cc

accept-decide_files :
    (strict some_checked : Bool) (front back : List KnownHostCheck)
    → All (λ c. c ≡ absent) front
    → decide_files strict some_checked (front ++ matched ∷ back) ≡ accept
unfolding decide_files
accept-decide_files strict b [] back h = refl
accept-decide_files strict b (c ∷ front) back (quiet, h) =
    rw quiet (accept-decide_files strict true front back h)

-- With strict checking a plain host key is accepted exactly when one of the known_hosts files
-- matches it and every file in front of that one has no entry for the host.
pub decide_host_key-accept_iff :
    (checks : List KnownHostCheck) → (decide_host_key true checks ≡ accept) ↔ IsFound checks
unfolding decide_host_key
decide_host_key-accept_iff checks = (
  decide_files-accept false checks,
  λ (front, back, split, quiet). rw split (accept-decide_files true false front back quiet),
)
