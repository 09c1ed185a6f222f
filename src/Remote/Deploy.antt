-- ===== src/Remote/Deploy.antt =====
-- `deploy` of src/remote.rs, with the check of the checksum, the probe of the version and
-- `cleanup_stale`; `Arch` and `serve_binary` are from src/embed.rs. The digest, the nonce, the
-- embedded bytes and the versions are parameters.
pub mod Verified
pub mod Stale
use shell_proxy.Prelude.{
  ℕ, List, [], ◌∷◌, ◌++◌, map, all, Option, none, some, Bool, true, false, not, ◌&&◌, ◌||◌, Result,
  ok, err, Text, codes, ◌==◌, if◌then◌else◌, eq_text, is_empty, is_ascii_alphanumeric,
  to_ascii_lowercase, from_utf8_lossy, trim, lines, split_on, split_whitespace, starts_with,
}
use shell_proxy.Proto.Frame.{Bytes}
use shell_proxy.Remote.Shell.{
  Request, Answer, Arch, x86_64, aarch64, Mismatch, bad_status, reported, RemoteError, uname_failed,
  unsupported_arch, no_binary, checksum_failed, version_mismatch, Done, done, Shell, ◌>>=◌, ◌>>◌,
  pure, fail, Collected, exec_collect, exec_status, upload,
}

pub record Host : Type 0 where
  pub answer : Answer
  pub digest : Bytes → Bytes
  pub hex_lower : Bytes → Text
  pub nonce : Bytes
  pub embedded : Arch → Bytes
  pub pkg_version : Text
  pub serve_version : Text

abbrev pub is_any : Text → List Text → Bool
is_any s [] = false
is_any s (t ∷ ts) = eq_text s t || is_any s ts

unfoldable pub parse_arch : Text → Option Arch
unfolding trim eq_text
parse_arch uname =
    let name = trim uname in
    if is_any name (codes "x86_64" ∷ codes "amd64" ∷ [])
    then some x86_64
    else if is_any name (codes "aarch64" ∷ codes "arm64" ∷ [])
    then some aarch64
    else none

abbrev pub arch_name : Arch → Text
arch_name x86_64 = codes "x86_64"
arch_name aarch64 = codes "aarch64"

-- An empty binary is the placeholder of a build without one.
abbrev pub serve_binary : Host → Arch → Option Bytes
serve_binary host arch = if is_empty (host.embedded arch) then none else some (host.embedded arch)

abbrev pub serve_dir : Text
serve_dir = codes "~/.local/share/shell-proxy"

abbrev pub upload_gc_minutes : Text
upload_gc_minutes = codes "10"

abbrev pub serve_name : Host → Arch → Text
serve_name host arch = codes "sp-serve-" ++ host.pkg_version ++ codes "-" ++ arch_name arch

abbrev pub in_dir : Text → Text
in_dir name = serve_dir ++ codes "/" ++ name

abbrev pub or_fail : {A : Type 0} → Option A → RemoteError → Shell A
or_fail none e = fail e
or_fail (some a) e = pure a

abbrev pub first_word : List Text → Text
first_word [] = []
first_word (w ∷ ws) = w

unfoldable pub remote_matches : Host → Text → Bytes → Shell Bool
unfolding exec_collect eq_text split_whitespace from_utf8_lossy
remote_matches host path expected = do
  (rc, out, e) ← exec_collect host.answer (codes "sha256sum " ++ path)
  if rc == 0
      then pure (
          eq_text (map to_ascii_lowercase (first_word (split_whitespace (from_utf8_lossy out))))
            (host.hex_lower (host.digest expected)))
      else if not (rc == 127)
      then pure false
      else do
        (rc, out, e) ← exec_collect host.answer (codes "cat " ++ path)
        if not (rc == 0)
            then pure false
            else pure (eq_text (host.digest out) (host.digest expected))

-- `strip_suffix('\n')`.
abbrev pub strip_line_feed : Text → Text
strip_line_feed [] = []
strip_line_feed (c ∷ []) = if c == 10 then [] else c ∷ []
strip_line_feed (c ∷ d ∷ s) = c ∷ strip_line_feed (d ∷ s)

unfoldable pub verify_serve_version : Bytes → ℕ → Text → Result Done Mismatch
unfolding from_utf8_lossy eq_text trim
verify_serve_version stdout status expected =
    let got = strip_line_feed (from_utf8_lossy stdout) in
    if (status == 0) && eq_text got expected
    then ok done
    else if not (status == 0)
    then err (bad_status status (trim got))
    else err (reported got expected)

abbrev pub verified : Text → Arch → Result Done Mismatch → Shell Done
verified path arch (ok d) = pure done
verified path arch (err reason) = fail (version_mismatch path arch reason)

unfoldable pub check_serve_version : Host → Text → Arch → Shell Done
unfolding exec_collect verify_serve_version
check_serve_version host path arch = do
  (rc, out, e) ← exec_collect host.answer (path ++ codes " --version")
  verified path arch (verify_serve_version out rc (codes "sp-serve " ++ host.serve_version))

abbrev pub is_safe : ℕ → Bool
is_safe c = is_ascii_alphanumeric c || ((c == b'-') || ((c == b'_') || (c == b'.')))

unfoldable pub tool_generated : Text → Bool
tool_generated name =
    (starts_with (codes "sp-serve-") name || starts_with (codes ".upload-") name)
    && all is_safe name

abbrev pub filter : (Text → Bool) → List Text → List Text
filter p [] = []
filter p (t ∷ ts) = let rest = filter p ts in if p t then t ∷ rest else rest

-- The last piece of `rsplit('/')`, which comes first.
abbrev pub last_of : Text → List Text → Text
last_of t [] = t
last_of t (u ∷ us) = last_of u us

unfoldable pub base_name : Text → Text
unfolding split_on
base_name p = last_of [] (split_on (λ c. c == b'/') p)

unfoldable pub listed_stale : Text → Bytes → List Text
unfolding from_utf8_lossy lines trim eq_text tool_generated
listed_stale keep out = map in_dir (
    filter (λ n. not (eq_text n keep) && tool_generated n) (map trim (lines (from_utf8_lossy out))))

unfoldable pub found_stale : Bytes → List Text
unfolding from_utf8_lossy lines trim tool_generated base_name
found_stale out =
    filter (λ p. tool_generated (base_name p)) (map trim (lines (from_utf8_lossy out)))

-- `join(" ")`.
abbrev pub join : List Text → Text
join [] = []
join (p ∷ []) = p
join (p ∷ q ∷ ps) = p ++ 32 ∷ join (q ∷ ps)

abbrev pub remove : Host → List Text → Shell Done
unfolding exec_status
remove host [] = pure done
remove host (p ∷ ps) = exec_status host.answer (codes "rm -f " ++ join (p ∷ ps))

abbrev pub find_command : Text
find_command =
    codes "find "
    ++ serve_dir
    ++ codes " -maxdepth 1 -name '.upload-*' -mmin +"
    ++ upload_gc_minutes

unfoldable pub cleanup_stale : Host → Text → Shell Done
unfolding exec_collect listed_stale found_stale
cleanup_stale host keep = do
  (rc, out, e) ← exec_collect host.answer (codes "ls " ++ serve_dir)
  if not (rc == 0) then pure done else do
    (frc, fout, e) ← exec_collect host.answer find_command
    remove host (listed_stale keep out ++ (if frc == 0 then found_stale fout else []))

-- The error of a cleanup is only logged.
abbrev pub tolerated :
    List Request × Result Done RemoteError → List Request × Result Done RemoteError
tolerated (h, r) = (h, ok done)

abbrev pub tolerate : Shell Done → Shell Done
tolerate m h = tolerated (m h)

unfoldable pub install : Host → Text → Bytes → Shell Done
unfolding exec_status upload remote_matches
install host path bin = do
  let tmp = in_dir (codes ".upload-" ++ host.hex_lower host.nonce)
  made ← exec_status host.answer (codes "mkdir -p " ++ serve_dir)
  sent ← upload host.answer tmp bin
  mode ← exec_status host.answer (codes "chmod 700 " ++ tmp)
  moved ← exec_status host.answer (codes "mv " ++ tmp ++ codes " " ++ path)
  same ← remote_matches host path bin
  if same then pure done else fail (checksum_failed path)

-- The binary for the architecture is known.
unfoldable pub deploy_to : Host → Arch → Bytes → Shell Text
unfolding remote_matches install cleanup_stale check_serve_version
deploy_to host arch bin = do
  let path = in_dir (serve_name host arch)
  same ← remote_matches host path bin
  installed ← if same then pure done else install host path bin
  cleaned ← tolerate (cleanup_stale host (serve_name host arch))
  checked ← check_serve_version host path arch
  pure path

unfoldable pub deploy : Host → Shell Text
unfolding exec_collect parse_arch deploy_to trim from_utf8_lossy
deploy host = do
  (rc, out, e) ← exec_collect host.answer (codes "uname -m")
  known ← if rc == 0 then pure done else fail (uname_failed rc)
  arch ← or_fail (parse_arch (from_utf8_lossy out)) (unsupported_arch (trim (from_utf8_lossy out)))
  bin ← or_fail (serve_binary host arch) (no_binary arch)
  deploy_to host arch bin
