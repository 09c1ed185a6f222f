-- ===== src/Ssh/KnownHosts/Server/Vouched.antt =====
-- What stands behind a server key that src/ssh.rs accepts.
use shell_proxy.Prelude.{
  ℕ, ◌≡◌, refl, Bool, true, false, Bool-cases, List, [], ◌∷◌, map, Option, none, some, Text, Result,
  ok, err, from_utf8_lossy, lines, ◌⊎◌, inl, inr, ◌++◌, All,
}
use shell_proxy.Proto.Frame.{Bytes}
use shell_proxy.SshConfig.{ResolvedHost}
use shell_proxy.Ssh.KnownHosts.{
  KnownHostCheck, matched, absent, changed, revoked_at, malformed, HashedError, key_changed, other,
  or_hashed, from_hashed_fallback, HostKeyDecision, accept, reject, decide_files,
  decide_certificate, unrecorded,
}
use shell_proxy.Ssh.KnownHosts.Scan.{Recorded, IsRevoking, scan_known_hosts-matched}
use shell_proxy.Ssh.KnownHosts.Server.{
  public_key, certificate, Library, host_key_lookup_name, scan_bytes, check_known_host_file,
  is_real, real_files, record_name, checks, decide_server_key, answer, check_server_key,
}

abbrev pub Any : (Text → Type 0) → List Text → Type 0
Any P [] = ⊥
Any P (p ∷ ps) = P p ⊎ Any P ps

first_accepts :
    (b : Bool) (c : KnownHostCheck) (cs : List KnownHostCheck)
    → decide_files true b (c ∷ cs) ≡ accept
    → (c ≡ matched) ⊎ (decide_files true true cs ≡ accept)
unfolding decide_files
first_accepts b matched cs h = inl refl
first_accepts b absent cs h = inr h
first_accepts b (changed n) cs h = cc
first_accepts b (revoked_at n) cs h = cc
first_accepts b (malformed d) cs h = cc

or_hashed-matched :
    (c : KnownHostCheck) (r : Result Bool HashedError)
    → or_hashed c r ≡ matched
    → (c ≡ matched) ⊎ (r ≡ ok true)
unfolding from_hashed_fallback
or_hashed-matched matched r h = inl refl
or_hashed-matched absent (ok true) h = inr refl
or_hashed-matched absent (ok false) h = cc
or_hashed-matched absent (err (key_changed n)) h = cc
or_hashed-matched absent (err (other e)) h = cc
or_hashed-matched (changed n) r h = cc
or_hashed-matched (revoked_at n) r h = cc
or_hashed-matched (malformed d) r h = cc

-- A certificate is accepted with lax checking alone, behind no file that says it is revoked.
decide_certificate-accept :
    (strict : Bool) (cs : List KnownHostCheck)
    → decide_certificate strict cs ≡ accept
    → (strict ≡ false) × All (λ c. (n : ℕ) → ¬ (c ≡ revoked_at n)) cs
unfolding decide_certificate
decide_certificate-accept true [] h = cc
decide_certificate-accept false [] h = (refl, tt)
decide_certificate-accept strict (revoked_at n ∷ cs) h = cc
decide_certificate-accept strict (matched ∷ cs) h =
    let (lax, all) = decide_certificate-accept strict cs h in (lax, ((λ n e. cc), all))
decide_certificate-accept strict (absent ∷ cs) h =
    let (lax, all) = decide_certificate-accept strict cs h in (lax, ((λ n e. cc), all))
decide_certificate-accept strict (changed m ∷ cs) h =
    let (lax, all) = decide_certificate-accept strict cs h in (lax, ((λ n e. cc), all))
decide_certificate-accept strict (malformed d ∷ cs) h =
    let (lax, all) = decide_certificate-accept strict cs h in (lax, ((λ n e. cc), all))

module _ {Key : Type 0} (lib : Library Key) where
  -- The text of a file records the key for the name and revokes it nowhere.
  abbrev pub IsRecorded : Text → Key → Text → Type 0
  IsRecorded lookup key text =
      Recorded lib.parse lib.same_key lib.same_algorithm lookup key false (lines text)
      × ((front back : List Text) (raw : Text)
          → lines text ≡ front ++ raw ∷ back
          → ¬ IsRevoking lib.parse lib.same_key lib.same_algorithm key raw)

  -- A file vouches for a key in a plain entry, or in a hashed one where no plain one says anything.
  abbrev pub Vouches : ResolvedHost → Key → Text → Type 0
  Vouches h key path =
      (is_real lib path ≡ true)
      × (((bytes : Bytes) × (lib.read path ≡ some bytes)
            × IsRecorded (host_key_lookup_name (record_name lib h) h.port) key
                (from_utf8_lossy bytes))
          ⊎ (lib.check_hashed (record_name lib h) h.port key path ≡ ok true))

  accepted_files :
      (f : Text → KnownHostCheck) (b : Bool) (ps : List Text)
      → decide_files true b (map f (real_files lib ps)) ≡ accept
      → Any (λ p. (is_real lib p ≡ true) × (f p ≡ matched)) ps
  unfolding real_files
  accepted_files f true [] h = unfold decide_files unrecorded in cc
  accepted_files f false [] h = unfold decide_files unrecorded in cc
  accepted_files f b (p ∷ ps) h = elim (Bool-cases (is_real lib p)) [
    | inr unreal ↦ inr (accepted_files f b ps (rw unreal at h))
    | inl real ↦ elim (first_accepts b (f p) (map f (real_files lib ps)) (rw real at h)) [
      | inl found ↦ inl (real, found)
      | inr more ↦ inr (accepted_files f true ps more)
    ]
  ]

  Any-map :
      (P Q : Text → Type 0) → ((p : Text) → P p → Q p) → (ps : List Text) → Any P ps → Any Q ps
  Any-map P Q f (p ∷ ps) (inl h) = inl (f p h)
  Any-map P Q f (p ∷ ps) (inr h) = inr (Any-map P Q f ps h)
  Any-map P Q f [] h = h

  scanned :
      (h : ResolvedHost) (key : Key) (path : Text) (o : Option Bytes)
      → lib.read path ≡ o
      → scan_bytes lib o (host_key_lookup_name (record_name lib h) h.port) key false ≡ matched
      → (bytes : Bytes) × (lib.read path ≡ some bytes)
        × IsRecorded (host_key_lookup_name (record_name lib h) h.port) key (from_utf8_lossy bytes)
  scanned h key path none e m = cc
  scanned h key path (some bytes) e m = (
    bytes,
    e,
    scan_known_hosts-matched lib.parse lib.same_key lib.same_algorithm (from_utf8_lossy bytes)
        (host_key_lookup_name (record_name lib h) h.port) key false m,
  )

  file-Vouches :
      (h : ResolvedHost) (key : Key) (path : Text)
      → (is_real lib path ≡ true)
        × (check_known_host_file lib path (record_name lib h) h.port key false ≡ matched)
      → Vouches h key path
  unfolding check_known_host_file
  file-Vouches h key path (real, m) =
      elim (or_hashed-matched _ (lib.check_hashed (record_name lib h) h.port key path) m) [
        | inl plain ↦ (real, inl (scanned h key path (lib.read path) refl plain))
        | inr hashed ↦ (real, inr hashed)
      ]

  answered : (d : HostKeyDecision) → (answer lib d).0 ≡ true → d ≡ accept
  answered accept e = refl
  answered (reject why) e = cc

  plain_taken :
      (h : ResolvedHost) (key : Key)
      → decide_server_key lib h (public_key key) ≡ accept
      → decide_files h.strict_host_keys false (checks lib h key false) ≡ accept
  plain_taken h key e = unfold decide_server_key in e

  cert_taken :
      (h : ResolvedHost) (key : Key)
      → decide_server_key lib h (certificate key) ≡ accept
      → decide_certificate h.strict_host_keys (checks lib h key true) ≡ accept
  cert_taken h key e = unfold decide_server_key in e

  -- With strict checking a plain key that is accepted has a file that vouches for it: one of the
  -- configured files other than /dev/null, which is there, and in which an entry for the host's
  -- name or alias, with its port unless that is 22, records this very key and no line revokes it,
  -- or whose hashed entries russh matched.
  pub check_server_key-Vouches :
      (h : ResolvedHost) (key : Key)
      → h.strict_host_keys ≡ true
      → (check_server_key lib h (public_key key)).0 ≡ true
      → Any (Vouches h key) h.known_hosts_files
  unfolding check_server_key
  check_server_key-Vouches h key strict accepted =
      let taken = answered (decide_server_key lib h (public_key key)) accepted in
      Any-map _ (Vouches h key) (file-Vouches h key) h.known_hosts_files (
        accepted_files (λ p. check_known_host_file lib p (record_name lib h) h.port key false) false
          h.known_hosts_files (rw strict at (plain_taken h key taken)))

  -- A certificate is accepted without strict checking alone, and only if no configured file that
  -- is there reports it as revoked.
  pub check_server_key-certificate :
      (h : ResolvedHost) (key : Key)
      → (check_server_key lib h (certificate key)).0 ≡ true
      → (h.strict_host_keys ≡ false)
        × All (λ c. (n : ℕ) → ¬ (c ≡ revoked_at n)) (checks lib h key true)
  unfolding check_server_key
  check_server_key-certificate h key accepted =
      decide_certificate-accept h.strict_host_keys (checks lib h key true)
        (cert_taken h key (answered (decide_server_key lib h (certificate key)) accepted))
