-- ===== src/Client/Tests.antt =====
-- The client of src/client.rs and src/main.rs at concrete inputs.
use shell_proxy.Prelude.{
  ℕ, suc, zero, ◌+◌, ◌-◌, ◌*◌, ◌≡◌, refl, true, false, List, [], ◌∷◌, none, some, arith, length,
  take, concat, codes, Text, ok,
}
use shell_proxy.Proto.Frame.{ExecRequest, int, exec, stdin_data, stdin_eof, signal, stdout, Bytes}
use shell_proxy.Client.Quote.{shell_quote, quote_remote_path, build_command, bare_char}
use shell_proxy.Client.Quote.Words.{words}
use shell_proxy.Client.Quote.RoundTrip.{build_command-words}
use shell_proxy.Client.Capture.{empty_sink, write_chunks, append_capped}
use shell_proxy.Client.Capture.Prefix.{write_chunks-prefix}
use shell_proxy.Client.Connect.{World, Attempt, connected, refused}
use shell_proxy.Client.Connect.Ends.{IsPaced, connect_or_spawn-IsCareful, IsServedBy}
use shell_proxy.Client.Run.{Run, input, input_end, frame, sig, turn, start, Loop, here, next}
use shell_proxy.Client.Run.Session.{IsSession, Loop-IsSession}

build_command-words_example :
    (line : Text) × (build_command none (codes "echo" ∷ codes "a b" ∷ []) none ≡ some (line, []))
    × (words (codes "/root") line ≡ some (codes "echo" ∷ codes "a b" ∷ []))
build_command-words_example =
    build_command-words (codes "/root") (codes "echo") (codes "a b") [] none

-- The unit tests of the quoting.
quotes_embedded_quotes : shell_quote (codes "it's") ≡ codes "'it'\\''s'"
unfolding shell_quote bare_char
quotes_embedded_quotes = refl

remote_paths_expand_leading_tilde : quote_remote_path (codes "~/dir/f") ≡ codes "$HOME/dir/f"
unfolding quote_remote_path bare_char
remote_paths_expand_leading_tilde = refl

remote_paths_leave_other_tildes : quote_remote_path (codes "~user/x") ≡ codes "'~user/x'"
unfolding quote_remote_path bare_char
remote_paths_leave_other_tildes = refl

single_arg_is_verbatim : build_command none (codes "a | b" ∷ []) none ≡ some (codes "a | b", [])
unfolding build_command bare_char
single_arg_is_verbatim = refl

keeps_prefix : append_capped (1 ∷ 2 ∷ []) 3 (3 ∷ 4 ∷ 5 ∷ []) ≡ (1 ∷ 2 ∷ 3 ∷ [], 2)
unfolding append_capped
keeps_prefix = refl

abbrev output : List Bytes
output = (1 ∷ 2 ∷ []) ∷ (3 ∷ []) ∷ []

write_chunks-prefix_example :
    ((write_chunks empty_sink output).buf ≡ take (512 * 1024) (concat output))
    × ((write_chunks empty_sink output).dropped ≡ length (concat output) - 512 * 1024)
write_chunks-prefix_example = write_chunks-prefix output (omega arith)

abbrev request : ExecRequest
request = record {
  host = codes "box";
  command = codes "cat";
  args = [];
  cwd = none;
  timeout_ms = none;
  session = none;
}

abbrev after_input : Run
after_input = record {
  stdin_open = true;
  signals_open = true;
  last_int = none;
  sent = exec request ∷ stdin_data (104 ∷ []) ∷ [];
  out = [];
  errs = [];
}

abbrev after_end : Run
after_end = record {
  stdin_open = false;
  signals_open = true;
  last_int = none;
  sent = exec request ∷ stdin_data (104 ∷ []) ∷ stdin_eof ∷ [];
  out = [];
  errs = [];
}

abbrev after_output : Run
after_output = record {
  stdin_open = false;
  signals_open = true;
  last_int = none;
  sent = exec request ∷ stdin_data (104 ∷ []) ∷ stdin_eof ∷ [];
  out = 104 ∷ [];
  errs = [];
}

abbrev after_int : Run
after_int = record {
  stdin_open = false;
  signals_open = true;
  last_int = some 2000;
  sent = exec request ∷ stdin_data (104 ∷ []) ∷ stdin_eof ∷ signal int ∷ [];
  out = 104 ∷ [];
  errs = [];
}

printed : Loop (start request) after_output
unfolding turn
printed =
    next 3 none (frame (ok (some (stdout (104 ∷ [])))))
      (next {v = after_input} {u = after_end} 2 none input_end
        (next 1 none (input (104 ∷ [])) here refl refl) refl refl)
      tt refl

interrupted : Loop (start request) after_int
unfolding turn
interrupted = next 2000 none (sig (some int)) printed refl refl

Loop-IsSession_example : IsSession after_int
Loop-IsSession_example = Loop-IsSession request after_int interrupted

-- Attempts that fail `n` times, 100 ms apart.
abbrev tries : ℕ → ℕ → List (ℕ × Attempt)
tries zero at = (at, connected) ∷ []
tries (suc n) at = (at, refused) ∷ tries n (at + 100)

tries-IsPaced : (n at : ℕ) → IsPaced at (tries n at)
tries-IsPaced zero at = (omega arith, tt)
tries-IsPaced (suc n) at = (omega arith, tries-IsPaced n (at + 100))

abbrev stale : World
stale = record {
  absolute = true;
  first = refused;
  second = refused;
  spawned = ok tt;
  spawned_at = 5;
  retries = tries 100 5;
}

connect_or_spawn-IsCareful_example : IsServedBy stale
connect_or_spawn-IsCareful_example =
    connect_or_spawn-IsCareful stale (tries-IsPaced 100 5) (omega arith)
