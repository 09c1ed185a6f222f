-- ===== src/Serve/State.antt =====
-- The state files of sessions: `state_paths`, `load_state` and `save_state` of
-- crates/sp-serve/src/serve.rs. The file system is a list of files, and what its operations answer is
-- an argument. A `String` is its bytes.
pub mod Atomic
use shell_proxy.Prelude.{
  ℕ, List, [], ◌∷◌, ◌++◌, Option, none, some, Bool, true, false, not, ◌&&◌, ◌||◌, Result, ok, err,
  Text, codes, eq_text, is_empty, is_utf8, length, ltb, if◌then◌else◌,
}
use shell_proxy.Proto.Frame.{Bytes}
use shell_proxy.Serve.Pipe.{state_cap}

abbrev pub Files : Type 0
Files = List (Text × Bytes)

unfoldable pub get_file : Text → Files → Option Bytes
unfolding eq_text
get_file path [] = none
get_file path ((name, c) ∷ fs) = if eq_text name path then some c else get_file path fs

unfoldable pub remove_file : Text → Files → Files
unfolding eq_text
remove_file path [] = []
remove_file path ((name, c) ∷ fs) =
    let rest = remove_file path fs in if eq_text name path then rest else (name, c) ∷ rest

abbrev pub put_file : Text → Bytes → Files → Files
put_file path c fs = (path, c) ∷ fs

-- What the operating system answers in one run, and what the temporary file holds while it is
-- written, in order.
pub record System : Type 0 where
  pub home : Option Text
  pub pid : Text
  pub readable : Bool
  pub creates_dir : Bool
  pub sets_mode : Bool
  pub opens : Bool
  pub while_writing : List Bytes
  pub writes : Bool
  pub renames : Bool
  pub removes : Bool

abbrev pub state_dir : Text → Text
state_dir home = home ++ codes "/.local/share/shell-proxy/sessions/"

abbrev pub state_file : Text → Text → Text
state_file home session = state_dir home ++ session ++ codes ".state"

abbrev pub temp_file : System → Text → Text → Text
temp_file sys home session =
    state_dir home ++ codes "." ++ session ++ codes "." ++ sys.pid ++ codes ".tmp"

-- The text of the one error.
pub data StateError : Type 0 where
  no_home : StateError

-- What the bytes of a state file give.
unfoldable pub state_of : Option Bytes → Option Bytes
unfolding is_utf8
state_of none = none
state_of (some bytes) =
    if ltb state_cap (length bytes)
    then none
    else if is_utf8 bytes && not (is_empty bytes)
    then some bytes
    else none

unfoldable pub load_from : System → Text → Option Text → Files → Result (Option Bytes) StateError
unfolding state_of get_file
load_from sys session none fs = err no_home
load_from sys session (some home) fs =
    ok (if sys.readable then state_of (get_file (state_file home session) fs) else none)

unfoldable pub load_state : System → Text → Files → Result (Option Bytes) StateError
unfolding load_from
load_state sys session fs = load_from sys session sys.home fs

-- The files after each step of the saving, the first of them those before it.
unfoldable pub clean_up : System → Text → Files → List Files
unfolding remove_file
clean_up sys tmp fs = if sys.removes then remove_file tmp fs ∷ [] else []

-- The rename replaces the state file in one step.
unfoldable pub rename_over : System → Text → Text → Bytes → Files → List Files
unfolding remove_file clean_up
rename_over sys tmp path state fs =
    if sys.renames
    then put_file path state (remove_file path (remove_file tmp fs)) ∷ []
    else clean_up sys tmp (put_file tmp state fs)

unfoldable pub write_temp : System → Text → Text → Bytes → List Bytes → Files → List Files
unfolding rename_over clean_up
write_temp sys tmp path state [] fs =
    if sys.writes
    then put_file tmp state fs ∷ rename_over sys tmp path state fs
    else clean_up sys tmp fs
write_temp sys tmp path state (c ∷ cs) fs = put_file tmp c fs ∷ write_temp sys tmp path state cs fs

abbrev pub is_missing : Option Bytes → Bool
is_missing none = true
is_missing (some c) = false

unfoldable pub open_temp : System → Text → Text → Bytes → Files → List Files
unfolding get_file write_temp clean_up
open_temp sys tmp path state fs =
    if sys.opens && is_missing (get_file tmp fs)
    then put_file tmp [] fs ∷ write_temp sys tmp path state sys.while_writing fs
    else clean_up sys tmp fs

unfoldable pub save_in : System → Text → Bytes → Option Text → Files → List Files
unfolding open_temp
save_in sys session state none fs = []
save_in sys session state (some home) fs =
    if sys.creates_dir && sys.sets_mode
    then open_temp sys (temp_file sys home session) (state_file home session) state fs
    else []

unfoldable pub save_state : System → Text → Bytes → Files → List Files
unfolding save_in
save_state sys session state fs =
    fs ∷ (if ltb state_cap (length state) then [] else save_in sys session state sys.home fs)
