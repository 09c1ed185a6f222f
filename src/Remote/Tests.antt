-- ===== src/Remote/Tests.antt =====
-- Concrete runs of src/remote.rs, and its theorems at concrete inputs.
use shell_proxy.Prelude.{
  ℕ, ◌≡◌, refl, List, [], ◌∷◌, ◌++◌, map, concat, true, Result, ok, Text, codes, eq_text, lines,
  trim_end, from_utf8_lossy, if◌then◌else◌, starts_with, none, Bool, false,
}
use shell_proxy.Proto.Frame.{Bytes, Signal, term, ServeExec, exec, stdin_data, stdin_eof, signal}
use shell_proxy.Proto.Tests.{
  plain_report, events, two_frames, two_wires, report-ReadsBack, pong-ReadsBack, two_encoded,
}
use shell_proxy.Daemon.Route.{StdinEvent, input, input_eof}
use shell_proxy.Remote.Forwarder.{Sent, Forward, Round, opened, rounds}
use shell_proxy.Remote.Forwarder.Order.{arrived, IsOrdered, rounds-opened}
use shell_proxy.Remote.ServeLog.{empty_log, feed, flush}
use shell_proxy.Remote.ServeLog.Lines.{feeds, flush-feed}
use shell_proxy.Remote.Engine.{ChanEvent, data_bytes, log_bytes, status, channel_closed, wait}
use shell_proxy.Remote.Engine.Report.{outputs, chunks_of, report, IsReported, wait-encode}
use shell_proxy.Remote.Shell.{Request, ChannelMsg, data_msg, exit_status, close}
use shell_proxy.Remote.Deploy.{Host, found_stale, join, deploy}
use shell_proxy.Remote.Deploy.Verified.{IsDeployed, deploy-IsDeployed}

-- The chunks of the two frames among lines of the log.
abbrev channel_events : List ChanEvent
channel_events =
    log_bytes (104 ∷ 13 ∷ 10 ∷ 105 ∷ [])
    ∷ data_bytes (0x81 ∷ 2 ∷ [])
    ∷ status 0
    ∷ data_bytes (0 ∷ 0 ∷ 0 ∷ 104 ∷ 105 ∷ 0x83 ∷ [])
    ∷ log_bytes (106 ∷ [])
    ∷ data_bytes (2 ∷ 0 ∷ 0 ∷ 0 ∷ 130 ∷ 1 ∷ [])
    ∷ channel_closed
    ∷ []

wait-encode_example :
    IsReported (wait events channel_events) (outputs two_frames) (plain_report 130 true)
unfolding outputs chunks_of report
wait-encode_example =
    wait-encode events channel_events two_frames two_wires (plain_report 130 true) report-ReadsBack
      pong-ReadsBack two_encoded refl refl

-- A line end cut in two, and a last line without one.
abbrev log_chunks : List Bytes
log_chunks = (104 ∷ 13 ∷ []) ∷ (10 ∷ 10 ∷ 105 ∷ []) ∷ (106 ∷ 32 ∷ []) ∷ []

log_lines : (flush (feeds log_chunks empty_log)).written ≡ codes "h" ∷ [] ∷ codes "ij" ∷ []
unfolding flush feeds feed
log_lines = refl

flush-feed_example :
    (flush (feeds log_chunks empty_log)).written
    ≡ map trim_end (lines (concat (map from_utf8_lossy log_chunks)))
flush-feed_example = flush-feed log_chunks

-- A host with an older binary and an old upload: its digest is the content itself.
abbrev told : ℕ → Text → Result (List ChannelMsg) Text
told rc out = ok (data_msg out ∷ exit_status rc ∷ close ∷ [])

abbrev replies : List (Text × Result (List ChannelMsg) Text) → Text → Result (List ChannelMsg) Text
unfolding eq_text
replies [] cmd = told 127 []
replies ((c, a) ∷ rest) cmd = if starts_with c cmd then a else replies rest cmd

abbrev sample_host : Text → Host
sample_host home = record {
  answer = λ h q.
      replies
        ((codes "uname", told 0 (codes "x86_64" ++ 10 ∷ []))
          ∷ (codes "sha256sum", told 0 (codes "AB  file" ++ 10 ∷ []))
          ∷ (
            codes "ls",
            told 0 (
                codes "sp-serve-0-x86_64"
                ++ 10 ∷ codes "sp-serve-1-x86_64"
                ++ 10 ∷ codes "my;file"
                ++ 10 ∷ []),
          )
          ∷ (codes "find", told 0 (home ++ codes "/.upload-1" ++ 10 ∷ []))
          ∷ (codes "rm", told 0 [])
          ∷ (codes "~", told 0 (codes "sp-serve 7" ++ 10 ∷ []))
          ∷ [])
        q.command;
  digest = λ b. b;
  hex_lower = λ b. codes "ab";
  nonce = 1 ∷ [];
  embedded = λ a. 7 ∷ [];
  pkg_version = codes "1";
  serve_version = codes "7";
}

abbrev sample_home : Text
sample_home = codes "/home/u"

abbrev sample_path : Text
sample_path = codes "~/.local/share/shell-proxy/sp-serve-1-x86_64"

-- The requests of the deployment, whose binary is there already.
abbrev sample_commands : List Text
sample_commands =
    codes "uname -m"
    ∷ (codes "sha256sum " ++ sample_path)
    ∷ codes "ls ~/.local/share/shell-proxy"
    ∷ codes "find ~/.local/share/shell-proxy -maxdepth 1 -name '.upload-*' -mmin +10"
    ∷ codes "rm -f ~/.local/share/shell-proxy/sp-serve-0-x86_64 /home/u/.upload-1"
    ∷ (sample_path ++ codes " --version")
    ∷ []

abbrev sample_requests : List Request
sample_requests = map (λ c. record { command = c; input = [] }) sample_commands

sample_deploy : deploy (sample_host sample_home) [] ≡ (sample_requests, ok sample_path)
unfolding deploy
sample_deploy = refl

deploy-IsDeployed_example : IsDeployed (sample_host sample_home) sample_path sample_requests
deploy-IsDeployed_example =
    deploy-IsDeployed (sample_host sample_home) [] sample_requests sample_path sample_deploy

-- A home directory with a blank goes into the command line as it is, where the shell splits it.
home_unquoted :
    join (found_stale (codes "/home/u /.upload-1" ++ 10 ∷ [])) ≡ codes "/home/u /.upload-1"
unfolding found_stale
home_unquoted = refl

abbrev sample_serve : ServeExec
sample_serve = record {
  session = codes "default";
  command = codes "cat";
  args = [];
  cwd = none;
  timeout_ms = none;
}

abbrev sample_round : List StdinEvent → List Signal → Round
sample_round es ss = record {
  more_stdin = es;
  close_stdin = false;
  more_signals = ss;
  close_signals = false;
  shutdown = false;
  write = Sent.done;
  shutdown_first = false;
}

abbrev sample_rounds : List Round
sample_rounds =
    sample_round (input (1 ∷ []) ∷ input_eof ∷ input (2 ∷ []) ∷ []) []
    ∷ sample_round [] (term ∷ [])
    ∷ sample_round [] []
    ∷ sample_round [] []
    ∷ []

-- A signal overtakes the end of the input, behind which no data is written.
sample_forward :
    (rounds sample_rounds (opened sample_serve)).frames
    ≡ exec sample_serve ∷ stdin_data (1 ∷ []) ∷ signal term ∷ stdin_eof ∷ []
unfolding rounds
sample_forward = refl

rounds-opened_example :
    (last : Bool) × IsOrdered last
      (rounds sample_rounds (opened sample_serve))
      (arrived false sample_rounds)
rounds-opened_example = rounds-opened sample_serve sample_rounds

abbrev closed_lane : Forward
closed_lane = record {
  stdin = input (1 ∷ []) ∷ [];
  stdin_closed = false;
  signals = [];
  signals_closed = true;
  stdin_open = true;
  frames = [];
  running = true;
}

abbrev shut_round : Round
shut_round = record {
  more_stdin = [];
  close_stdin = false;
  more_signals = [];
  close_signals = false;
  shutdown = true;
  write = Sent.done;
  shutdown_first = true;
}
