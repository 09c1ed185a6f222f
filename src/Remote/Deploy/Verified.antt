-- ===== src/Remote/Deploy/Verified.antt =====
-- What a deployment of src/remote.rs has checked when it succeeds.
use shell_proxy.Prelude.{
  ℕ, ◌≡◌, refl, sym, ◌⊎◌, inl, inr, List, ◌++◌, map, Option, none, some, Bool, true, false, not,
  Bool-cases, Result, ok, err, subst, Text, codes, ◌==◌, ==_iff, if◌then◌else◌, eq_text,
  eq_text_iff, to_ascii_lowercase, from_utf8_lossy, split_whitespace, trim,
}
use shell_proxy.Proto.Frame.{Bytes}
use shell_proxy.Remote.Shell.{
  Request, Arch, RemoteError, checksum_failed, uname_failed, unsupported_arch, no_binary,
  exec_status, upload, Mismatch, Done, done, Shell, ◌>>=◌, proceed_with, pure, fail, Collected,
  exec_collect,
}
use shell_proxy.Remote.Deploy.{
  Host, parse_arch, serve_dir, serve_binary, serve_name, in_dir, or_fail, first_word,
  remote_matches, strip_line_feed, verify_serve_version, verified, check_serve_version,
  cleanup_stale, tolerate, tolerated, install, deploy_to, deploy,
}

-- A run from one list of requests to another that gives `a`.
abbrev pub Gives : {A : Type 0} → Shell A → List Request → A → List Request → Type 0
Gives m h a k = m h ≡ (k, ok a)

-- Behind a successful run is one of its first part.
>>=-Gives :
    {A B : Type 0} (m : Shell A) (next : A → Shell B) (h k : List Request) (b : B)
    → Gives (m >>= next) h b k
    → (a : A) × (g : List Request) × Gives m h a g × Gives (next a) g b k
>>=-Gives m next h k b = pair (m h)
  where
    pair :
        (p : List Request × Result _ RemoteError)
        → proceed_with p next ≡ (k, ok b)
        → (a : _) × (g : List Request) × (p ≡ (g, ok a)) × Gives (next a) g b k
    pair (g, ok a) e = (a, g, refl, e)
    pair (g, err x) e = cc

-- The host gave the digest of the binary for the path, or, without `sha256sum`, bytes with it.
abbrev pub Hashed : Host → Text → Bytes → List Request → List Request → Type 0
Hashed host path bin h k =
    (out : Bytes) × (e : Bytes) × Gives (exec_collect host.answer (codes "sha256sum " ++ path)) h
      (0, out, e) k
    × (map to_ascii_lowercase (first_word (split_whitespace (from_utf8_lossy out)))
        ≡ host.hex_lower (host.digest bin))

abbrev pub Read : Host → Text → Bytes → List Request → List Request → Type 0
Read host path bin h k =
    (out : Bytes) × (e : Bytes) × Gives (exec_collect host.answer (codes "cat " ++ path)) h
      (0, out, e) k
    × (host.digest out ≡ host.digest bin)

-- A command's run, with its status and its end put in.
ends :
    (m : Shell Collected) (h g k : List Request) (rc : ℕ) (out e : Bytes)
    → rc ≡ 0
    → g ≡ k
    → Gives m h (rc, out, e) g
    → Gives m h (0, out, e) k
ends m h g k rc out e z last run = rw (sym z, sym last) run

-- `cat` gave bytes with the digest.
cat-Read :
    (host : Host) (path : Text) (bin : Bytes) (h k : List Request)
    → Gives
        (do
          (rc, out, e) ← exec_collect host.answer (codes "cat " ++ path)
          if not (rc == 0) then pure false else pure (eq_text (host.digest out) (host.digest bin)))
        h
        true
        k
    → Read host path bin h k
cat-Read host path bin h k run =
    let ((rc, out, e), g, asked, rest) =
      >>=-Gives (exec_collect host.answer (codes "cat " ++ path)) _ h k true run in
    elim (Bool-cases (rc == 0)) [
      | inl z ↦
          let given = rw z at rest in
          let same : eq_text (host.digest out) (host.digest bin) ≡ true = cc in
          let last : g ≡ k = cc in
          (
            out,
            e,
            ends (exec_collect host.answer (codes "cat " ++ path)) h g k rc out e
                ((==_iff rc 0).0 z) last asked,
            (eq_text_iff (host.digest out) (host.digest bin)).0 same,
          )
      | inr z ↦ let given = rw z at rest in cc
    ]

matches-Hashed :
    (host : Host) (path : Text) (bin : Bytes) (h k : List Request)
    → Gives (remote_matches host path bin) h true k
    → Hashed host path bin h k ⊎ ((g : List Request) × Read host path bin g k)
unfolding remote_matches
matches-Hashed host path bin h k run =
    let ((rc, out, e), g, asked, rest) =
      >>=-Gives (exec_collect host.answer (codes "sha256sum " ++ path)) _ h k true run in
    let word = map to_ascii_lowercase (first_word (split_whitespace (from_utf8_lossy out))) in
    elim (Bool-cases (rc == 0)) [
      | inl z ↦
          let given = rw z at rest in
          let same : eq_text word (host.hex_lower (host.digest bin)) ≡ true = cc in
          let last : g ≡ k = cc in
          inl (
            out,
            e,
            ends (exec_collect host.answer (codes "sha256sum " ++ path)) h g k rc out e
                ((==_iff rc 0).0 z) last asked,
            (eq_text_iff word (host.hex_lower (host.digest bin))).0 same,
          )
      | inr z ↦
          let missed = rw z at rest in
          elim (Bool-cases (rc == 127)) [
            | inl y ↦ inr (g, cat-Read host path bin g k (rw y at missed))
            | inr y ↦ let given = rw y at missed in cc
          ]
    ]

-- The probe of the version answered with the version of this build.
abbrev pub Probed : Host → Text → List Request → List Request → Type 0
Probed host path h k =
    (out : Bytes) × (e : Bytes) × Gives (exec_collect host.answer (path ++ codes " --version")) h
      (0, out, e) k
    × (strip_line_feed (from_utf8_lossy out) ≡ codes "sp-serve " ++ host.serve_version)

verify_serve_version-ok :
    (out : Bytes) (rc : ℕ) (expected : Text) (d : Done)
    → verify_serve_version out rc expected ≡ ok d
    → (rc ≡ 0) × (strip_line_feed (from_utf8_lossy out) ≡ expected)
unfolding verify_serve_version
verify_serve_version-ok out rc expected d h =
    let got = strip_line_feed (from_utf8_lossy out) in
    elim (Bool-cases (rc == 0)) [
      | inl z ↦ elim (Bool-cases (eq_text got expected)) [
        | inl y ↦ ((==_iff rc 0).0 z, (eq_text_iff got expected).0 y)
        | inr y ↦ let given = rw (z, y) at h in cc
      ]
      | inr z ↦ let given = rw z at h in cc
    ]

verified-ok :
    (path : Text) (arch : Arch) (r : Result Done Mismatch) (g k : List Request) (d : Done)
    → Gives (verified path arch r) g d k
    → (g ≡ k) × ((a : Done) × (r ≡ ok a))
verified-ok path arch (ok a) g k d run = (cc, (a, refl))
verified-ok path arch (err x) g k d run = cc

check-Probed :
    (host : Host) (path : Text) (arch : Arch) (h k : List Request) (d : Done)
    → Gives (check_serve_version host path arch) h d k
    → Probed host path h k
unfolding check_serve_version
check-Probed host path arch h k d run =
    let probe : Shell Collected = exec_collect host.answer (path ++ codes " --version") in
    let expected = codes "sp-serve " ++ host.serve_version in
    let ((rc, out, e), g, asked, rest) = >>=-Gives probe _ h k d run in
    let (last, (a, y)) = verified-ok path arch (verify_serve_version out rc expected) g k d rest in
    let (zero_rc, said) = verify_serve_version-ok out rc expected a y in
    (out, e, ends probe h g k rc out e zero_rc last asked, said)

or_fail-ok :
    {A : Type 0} (o : Option A) (x : RemoteError) (g k : List Request) (a : A)
    → Gives (or_fail o x) g a k
    → o ≡ some a
or_fail-ok none x g k a run = cc
or_fail-ok (some b) x g k a run = cc

-- The binary was there, or the installation has checked it.
install-Gives :
    (host : Host) (path : Text) (bin : Bytes) (same : Bool) (h g k : List Request) (d : Done)
    → Gives (remote_matches host path bin) h same g
    → Gives (if same then pure done else install host path bin) g d k
    → (f : List Request) × Gives (remote_matches host path bin) f true k
unfolding install
install-Gives host path bin true h g k d was run =
    let last : g ≡ k = cc in
    (h, subst (λ (x : List Request). Gives (remote_matches host path bin) h true x) last was)
install-Gives host path bin false h g k d was run =
    let tmp = in_dir (codes ".upload-" ++ host.hex_lower host.nonce) in
    let (made, g1, _, run1) =
      >>=-Gives (exec_status host.answer (codes "mkdir -p " ++ serve_dir)) _ g k d run in
    let (sent, g2, _, run2) = >>=-Gives (upload host.answer tmp bin) _ g1 k d run1 in
    let (mode, g3, _, run3) =
      >>=-Gives (exec_status host.answer (codes "chmod 700 " ++ tmp)) _ g2 k d run2 in
    let (moved, g4, _, run4) =
      >>=-Gives (exec_status host.answer (codes "mv " ++ tmp ++ codes " " ++ path)) _ g3 k d run3 in
    let (same, g5, matched, run5) = >>=-Gives (remote_matches host path bin) _ g4 k d run4 in
    checked same g4 g5 matched run5
  where
    checked :
        (same : Bool) (g4 g5 : List Request)
        → Gives (remote_matches host path bin) g4 same g5
        → Gives (if same then pure done else fail (checksum_failed path)) g5 d k
        → (f : List Request) × Gives (remote_matches host path bin) f true k
    checked true g4 g5 m r =
        let last : g5 ≡ k = cc in
        (g4, subst (λ (x : List Request). Gives (remote_matches host path bin) g4 true x) last m)
    checked false g4 g5 m r = cc

pure-Gives : {A : Type 0} (a b : A) (g k : List Request) → Gives (pure a) g b k → (a ≡ b) × (g ≡ k)
pure-Gives a b g k run = (cc, cc)

tolerate-Gives :
    (m : Shell Done) (h k : List Request) (d : Done)
    → Gives (tolerate m) h d k
    → (r : Result Done RemoteError) × (m h ≡ (k, r))
tolerate-Gives m h k d run = pair (m h) run
  where
    pair :
        (p : List Request × Result Done RemoteError)
        → tolerated p ≡ (k, ok d)
        → (r : Result Done RemoteError) × (p ≡ (k, r))
    pair (g, r) e = (r, cc)

-- The end of a deployment to `path`, whose requests are `k`: the check of the digest, then only the
-- cleanup, and the probe of the version.
abbrev pub IsDeployed : Host → Text → List Request → Type 0
IsDeployed host path k =
    (arch : Arch) × (bin : Bytes) × (f : List Request) × (g : List Request) × (c : List Request)
    × (path ≡ in_dir (serve_name host arch))
    × (serve_binary host arch ≡ some bin)
    × (Hashed host path bin f g ⊎ ((i : List Request) × Read host path bin i g))
    × ((r : Result Done RemoteError) × (cleanup_stale host (serve_name host arch) g ≡ (c, r)))
    × Probed host path c k

at_path :
    (host : Host) (path : Text) (bin : Bytes) (f g : List Request) (p : Text)
    → p ≡ path
    → Hashed host p bin f g ⊎ ((i : List Request) × Read host p bin i g)
    → Hashed host path bin f g ⊎ ((i : List Request) × Read host path bin i g)
at_path host path bin f g p same found =
    subst (λ (x : Text). Hashed host x bin f g ⊎ ((i : List Request) × Read host x bin i g)) same
      found

check-Probed_at :
    (host : Host) (path : Text) (arch : Arch) (g h k : List Request) (d : Done) (p : Text)
    → p ≡ path
    → h ≡ k
    → Gives (check_serve_version host p arch) g d h
    → Probed host path g k
check-Probed_at host path arch g h k d p same last run =
    rw (sym same, sym last) (check-Probed host p arch g h d run)

deploy_to-IsDeployed :
    (host : Host) (arch : Arch) (bin : Bytes) (h k : List Request) (path : Text)
    → serve_binary host arch ≡ some bin
    → Gives (deploy_to host arch bin) h path k
    → IsDeployed host path k
unfolding deploy_to
deploy_to-IsDeployed host arch bin h k path chosen run =
    let name : Text = serve_name host arch in
    let p : Text = in_dir name in
    let (same, g1, matched, run1) = >>=-Gives (remote_matches host p bin) _ h k path run in
    let (installed, g2, put, run2) =
      >>=-Gives (if same then pure done else install host p bin) _ g1 k path run1 in
    let (cleaned, g3, swept, run3) =
      >>=-Gives (tolerate (cleanup_stale host name))
        (λ cleaned. check_serve_version host p arch >>= (λ checked. pure p)) g2 k path run2 in
    let (checked, g4, probed, run4) =
      >>=-Gives (check_serve_version host p arch) (λ checked. pure p) g3 k path run3 in
    let (same_path, last) = pure-Gives p path g4 k run4 in
    let (f, found) = install-Gives host p bin same h g1 g2 installed matched put in
    (
      arch,
      bin,
      f,
      g2,
      g3,
      sym same_path,
      chosen,
      at_path host path bin f g2 p same_path (matches-Hashed host p bin f g2 found),
      tolerate-Gives (cleanup_stale host name) g2 g3 cleaned swept,
      check-Probed_at host path arch g3 g4 k checked p same_path last probed,
    )

-- A deployment that succeeds gives the versioned path of an architecture with an embedded binary;
-- the host gave the binary's digest for the path, or content with that digest, and after that
-- requests are made only by the cleanup and by the probe, which answered with status 0 and the
-- one line with the version of this build.
pub deploy-IsDeployed :
    (host : Host) (h k : List Request) (path : Text)
    → deploy host h ≡ (k, ok path)
    → IsDeployed host path k
unfolding deploy
deploy-IsDeployed host h k path run =
    let ((rc, out, e), g1, _, run1) =
      >>=-Gives (exec_collect host.answer (codes "uname -m")) _ h k path run in
    let (known, g2, _, run2) =
      >>=-Gives (if rc == 0 then pure done else fail (uname_failed rc)) _ g1 k path run1 in
    let uname = from_utf8_lossy out in
    let unsupported = unsupported_arch (trim uname) in
    let (arch, g3, named, run3) =
      >>=-Gives (or_fail (parse_arch uname) unsupported) _ g2 k path run2 in
    let (bin, g4, chosen, run4) =
      >>=-Gives (or_fail (serve_binary host arch) (no_binary arch)) _ g3 k path run3 in
    deploy_to-IsDeployed host arch bin g4 k path
      (or_fail-ok (serve_binary host arch) (no_binary arch) g3 g4 bin chosen) run4
