-- ===== src/Lib.antt =====
-- shell-proxy runs shell commands on remote hosts over SSH. A client sends a request to a daemon,
-- the daemon forwards it over an SSH channel to `sp-serve` on the host, and `sp-serve` runs it
-- under bash and reports its output and its end. The hops speak one framed protocol.
--
-- Proto is crates/sp-proto. Proto/Frame has its data (`ExecRequest`, `ServeExec`, `ExitReport`,
-- `Signal`, `ExecFrame`, `EventFrame`, kinds and errors) and the codecs `encode_exec_frame`,
-- `encode_event_frame`, `encode_raw`, `frame_header`, `decode_exec`, `decode_event`; Proto/Decoder
-- is the incremental `EventDecoder` with `push`; Proto/Stream is `read_frame_as` with the readers
-- and writers above it; Proto/Utf8 is `truncate_utf8`; Proto/Session is `SessionId` of
-- src/session.rs there. A byte is a native number below 256, a text the list of its code points.
-- serde_json is the record `Json` of two functions, and a theorem that needs what was written to
-- be read back has `ReadsBack` as a hypothesis. An `Error` keeps what its message is made of
-- instead of the formatted text.
--
-- A transport is the list of what arrives: chunks, which a read may split further, and failures.
-- The decoder loop and the read loops run on fuel: the bytes in the buffer, and the bytes that are
-- wanted; each round takes five bytes off the buffer or brings one, so the fuel is enough, and the
-- theorems say that the result is there. Integers of 32 bits are native numbers with the bound
-- written out.
--
-- Serve/Watch is the loop of `execute` in crates/sp-serve/src/serve.rs: `Watch` holds its
-- variables with a log of the signals that the process group was sent, `turn` is its body, `start`
-- the state in front of it, and `Loop` relates the states of a run, in which any enabled branch of
-- the select may be taken. Instants are milliseconds of a clock that ends at a limit.
--
-- Client is the client. Client/Quote is `shell_quote`, `quote_remote_path`, `upload_request` and
-- `download_request` of src/client.rs with `join_command` and `build_command` of src/main.rs;
-- Client/Quote/Words describes how a POSIX shell reads a line into words. Client/Capture is
-- `append_capped` and `CappedSink`; Client/Run is the loop of `run`, with the frames it sends,
-- what it prints, and a write of a turn that may fail.
--
-- Ssh is the verification of host keys in src/ssh.rs. Ssh/Pattern is `match_pattern` and
-- `match_pattern_list`, Ssh/KnownHosts is `scan_known_hosts`, `raw_entry_targets_host`,
-- `from_hashed_fallback`, `decide_host_key` and `decide_certificate`. The parser of entries, the
-- keys and their comparison are parameters, and so is what russh answers for hashed entries; the
-- files are given as the results of their checks. The matcher runs on fuel of one pattern length
-- per subject position and two more, which the backtracking cannot use up.
--
-- Serve/Pipe is `read_pipe` of crates/sp-serve/src/serve.rs: the reads of a pipe as a list, the
-- bytes in front of the NUL, the cap, and the check of UTF-8; a `String` is its bytes there.
--
-- Config is `resolve_host` and `resolve_session` of src/config.rs, `check_timeout_ms` of
-- src/lib.rs and the timeouts of src/main.rs; the environment and the loaded file are arguments.
--
-- Ssh/Auth is `PublickeyBudget` with the attempts of `authenticate`; the replies are a function of
-- the number of the attempt.
--
-- Remote is src/remote.rs. Remote/Engine is the control loop `ExecChannel::wait` over the events
-- of a channel, Remote/ServeLog is `ServeLog`, Remote/Shell is `exec_collect`, `exec_status` and
-- `upload`, and Remote/Deploy is `deploy` with `remote_matches`, `cleanup_stale` and the probe of
-- the version, and `Arch` of src/embed.rs. A part of the deployment takes the requests made so far
-- and gives them with its own; the host answers a request after those before it.
--
-- Daemon is src/daemon.rs. Daemon/Shared is its two tables with `get_or_connect`, `get_session`
-- and the eviction, Daemon/Route is the client-frame reader task, Daemon/Control is the control
-- loop with the bridge of the outputs, on a schedule that says which goes on next, and Daemon/Exec
-- is `handle_exec` and `handle_conn`. What other tasks do to the tables between two looks is a
-- function in `World` and `Contact`. Daemon/Order is a step relation for the executions of all
-- sessions on the table of sessions and their locks. The wait for the lock of a session has no
-- limit: an execution that never gets it gives `none`.
--
-- SshConfig is src/ssh_config.rs: `parse_ssh_g_output` with `fallback`, SshConfig/Tokens is
-- `insert_value` and `expand_tokens`, and SshConfig/Values is `unquote` and `split_values`. What
-- `ssh -G` printed, the home directory, the local user and the joining of paths are arguments.
--
-- Remote/Forwarder has the tasks of `ExecChannel::open`: a round is one poll of the forwarder,
-- before which the lanes may get more and the shutdown may fire, and in which a write is done,
-- refused or cancelled. Serve/State is `load_state` and `save_state` of
-- crates/sp-serve/src/serve.rs; the saving gives the files after each of its steps, and says by
-- arguments which operation fails and what the temporary file holds while it is written.
--
-- Serve/Spawn is the `pre_exec` part of `spawn` in crates/sp-serve/src/child.rs, over a table of
-- descriptors with the `dup2`, `F_DUPFD`, `F_SETFD` and `close` of POSIX; the free descriptor that
-- `F_DUPFD` takes is a parameter. The new session and the clearing of O_NONBLOCK, which change no
-- entry of the table, are left out.
--
-- Serve/Output has the tasks of `execute` on the channel of frames, with `pump` and `drain_pumps`:
-- a schedule polls them in any order, with the outcome of each write. Serve/Execute is `execute`
-- with its main loop, and `inner` and `run` around it. Journey joins it to Remote/Engine. In
-- Serve/Execute a schedule is a list of rounds and a list of ticks; a schedule that is too short
-- gives `none`, and so does a write to standard output behind the drain that never ends.
--
-- Mcp is src/mcp.rs: the tools with `resolve_host` and `resolve_session`, and in Mcp/Format the
-- texts of `clip`, `push_dropped`, `file_result` and `format_report`. Daemon/Idle is the accept
-- loop of `run` in src/daemon.rs with `ActiveGuard`, as a step relation in which the drop of a
-- guard takes two steps. Ssh/KnownHosts/Server is `check_server_key` with `decide_server_key` and
-- `check_known_host_file`.
--
-- Serve/Input has the tasks of `execute` between the transport, the signals that sp-serve catches,
-- the input of the child and the main loop, on a schedule of their turns.
--
-- Client/Connect is `connect_or_spawn` and `ping` of src/client.rs, over the outcomes of their
-- attempts to connect.
--
-- Ssh/Connect is `connect` of src/ssh.rs with its timeouts, over the outcomes and durations of its
-- steps.
--
-- Not modelled: the start of the daemon process in src/client.rs, the teardown of the channel
-- tasks in src/remote.rs, and the pipes and memory files of the child; the local transport, the
-- console, the embedded binaries and the bash wrapper, which are I/O of the operating system,
-- data, or another language.
pub mod Client
pub mod Config
pub mod Daemon
pub mod Journey
pub mod Mcp
pub mod Prelude
pub mod Proto
pub mod Remote
pub mod Serve
pub mod Ssh
pub mod SshConfig
