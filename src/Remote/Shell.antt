-- ===== src/Remote/Shell.antt =====
-- The commands that src/remote.rs runs on the host: `exec_collect`, `exec_status`, `upload`. The
-- SSH library and the host are a parameter, which answers a request after those before it.
use shell_proxy.Prelude.{
  ℕ, zero, List, [], ◌∷◌, ◌++◌, Option, none, some, Result, ok, err, Text, codes, ◌==◌, ltb, ◌^◌,
  if◌then◌else◌, from_utf8_lossy, trim,
}
use shell_proxy.Proto.Frame.{Bytes}

-- A command, with what is written to it.
pub record Request : Type 0 where
  pub command : Text
  pub input : Bytes

pub data ChannelMsg : Type 0 where
  data_msg : Bytes → ChannelMsg
  extended_data : Bytes → ℕ → ChannelMsg
  exit_status : ℕ → ChannelMsg
  close : ChannelMsg
  other : ChannelMsg

-- What comes of a request: the messages of its channel, or the library's error.
abbrev pub Answer : Type 0
Answer = List Request → Request → Result (List ChannelMsg) Text

pub data Arch : Type 0 where
  x86_64 : Arch
  aarch64 : Arch

pub data Mismatch : Type 0 where
  bad_status : ℕ → Text → Mismatch
  reported : Text → Text → Mismatch

-- The texts of `Error::Remote`, by what they hold.
pub data RemoteError : Type 0 where
  not_run : Text → Text → RemoteError
  command_failed : Text → ℕ → Text → RemoteError
  upload_failed : Text → Option ℕ → RemoteError
  uname_failed : ℕ → RemoteError
  unsupported_arch : Text → RemoteError
  no_binary : Arch → RemoteError
  checksum_failed : Text → RemoteError
  version_mismatch : Text → Arch → Mismatch → RemoteError

pub data Done : Type 0 where
  done : Done

-- A part of the deployment, with the requests made so far.
abbrev pub Shell : Type 0 → Type 0
Shell A = List Request → List Request × Result A RemoteError

infixl 5 ◌>>=◌
infixl 5 ◌>>◌
abbrev pub proceed_with :
    {A B : Type 0}
    → List Request × Result A RemoteError
    → (A → Shell B)
    → List Request × Result B RemoteError
proceed_with (h, ok a) next = next a h
proceed_with (h, err e) next = (h, err e)

abbrev pub ◌>>=◌ : {A B : Type 0} → Shell A → (A → Shell B) → Shell B
(m >>= next) h = proceed_with (m h) next

abbrev pub ◌>>◌ : {A B : Type 0} → Shell A → Shell B → Shell B
(m >> next) = m >>= (λ a. next)

abbrev pub pure : {A : Type 0} → A → Shell A
pure a h = (h, ok a)

abbrev pub fail : {A : Type 0} → RemoteError → Shell A
fail e h = (h, err e)

abbrev pub answered :
    {A : Type 0}
    → (Text → RemoteError)
    → (List ChannelMsg → A)
    → Result (List ChannelMsg) Text
    → Result A RemoteError
answered failed read (ok msgs) = ok (read msgs)
answered failed read (err e) = err (failed e)

abbrev pub ask :
    {A : Type 0} → Answer → Request → (Text → RemoteError) → (List ChannelMsg → A) → Shell A
ask answer r failed read h = (h ++ r ∷ [], answered failed read (answer h r))

-- The status, standard output and standard error.
abbrev pub Collected : Type 0
Collected = ℕ × Bytes × Bytes

-- `i32::try_from(exit_status).unwrap_or(255)`.
abbrev pub to_rc : ℕ → ℕ
to_rc s = if ltb s (2 ^ 31) then s else 255

-- The loop over the messages; a later exit status replaces an earlier one.
unfoldable pub collect : List ChannelMsg → Collected → Collected
collect [] c = c
collect (close ∷ ms) c = c
collect (data_msg d ∷ ms) (rc, out, e) = collect ms (rc, out ++ d, e)
collect (extended_data d ext ∷ ms) (rc, out, e) =
    collect ms (rc, out, if ext == 1 then e ++ d else e)
collect (exit_status s ∷ ms) (rc, out, e) = collect ms (to_rc s, out, e)
collect (other ∷ ms) c = collect ms c

unfoldable pub exec_collect : Answer → Text → Shell Collected
unfolding collect
exec_collect answer cmd =
    ask answer (record { command = cmd; input = [] }) (not_run cmd)
      (λ msgs. collect msgs (255, [], []))

unfoldable pub exec_status : Answer → Text → Shell Done
unfolding exec_collect trim from_utf8_lossy
exec_status answer cmd = do
  (rc, out, e) ← exec_collect answer cmd
  if rc == 0 then pure done else fail (command_failed cmd rc (trim (from_utf8_lossy e)))

unfoldable pub last_status : List ChannelMsg → Option ℕ → Option ℕ
last_status [] status = status
last_status (close ∷ ms) status = status
last_status (exit_status s ∷ ms) status = last_status ms (some s)
last_status (data_msg d ∷ ms) status = last_status ms status
last_status (extended_data d ext ∷ ms) status = last_status ms status
last_status (other ∷ ms) status = last_status ms status

abbrev pub uploaded : Text → Option ℕ → Shell Done
uploaded path (some zero) = pure done
uploaded path status = fail (upload_failed path status)

unfoldable pub upload : Answer → Text → Bytes → Shell Done
unfolding last_status
upload answer path contents = do
  let cmd = codes "cat > " ++ path
  status ←
      ask answer (record { command = cmd; input = contents }) (not_run cmd)
        (λ msgs. last_status msgs none)
  uploaded path status
