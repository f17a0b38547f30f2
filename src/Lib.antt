-- ===== src/Lib.antt =====
-- codex_bridge: agent-bridge, a command-line client for coding agents that run behind a JSON-RPC server on a
-- websocket (Codex's app-server, dsh's daemon).
--
-- The program. A command (src/cli.rs) becomes a verb of src/core/session.rs. The verb opens the thread's log
-- (src/core/logging.rs), makes sure that the daemon answers (src/core/daemon.rs), connects (src/backend/rpc.rs),
-- and talks to the server through a backend: the trait `Backend` of src/backend/mod.rs, implemented by
-- src/backend/codex and src/backend/dsh. A reader task pairs responses with waiting requests and queues all else as
-- events; the session's loop takes the events, and ends by a code, or waits on.
--
-- The model.
--   Common, Json, Samples   Results and effects, lists, Rust's texts and integers, JSON values; test data.
--   Rpc          src/backend/rpc.rs: `dispatch` and the reader task over a table of waiters, as functions of the
--                frames that arrive, with proofs in Rpc/Pairing and Rpc/Reader. Rpc/Calls has requests that wait at
--                the same time, as steps between the frames; Rpc/Calls/Fate is the view without a table that they are held against,
--                and the contract of a protocol's ids, which Codex/Wire/Keys and Dsh/Wire/Keys fulfil.
--   Connection   src/backend/rpc.rs: the methods of `Connection`, over the state `World` that all effects share;
--                Connection/Envelopes has proofs, and Connection/Writes the frames of a composed action.
--   Host         What is outside the program: how the server, programs and the file system answer, each as a
--                function of the history; and the machine that the daemon's code acts on.
--   Paths, Process, Daemon   src/core/daemon.rs: directories; the pid file, liveness, the end of a process and the
--                standard handles, on Unix and on Windows; the rest,
--                with the probe in Daemon/Probe and the start in Daemon/Start. The
--                proofs are in Daemon/Waits, Daemon/Quiet (what an operation keeps), Daemon/Spawns, Daemon/Signals,
--                Daemon/Owned and Daemon/Handles.
--   Backend      src/backend/mod.rs: the trait as a record of operations, the argument `b` of the session.
--   Codex, Dsh   src/backend/codex and src/backend/dsh: an instance of the record each; below them the wire
--                protocols, approvals, messages, `normalize`, Codex's pane and dsh's URLs and launch.
--   Logging, Config   src/core/logging.rs and src/core/config.rs.
--   Session      src/core/session.rs: Wake (deadlines and `next_wake`), Handle (one event, its state in Handle/State),
--                Wait (`wait_loop`; Wait/Lost puts it behind the reader, Wait/Overflow has its panics), Selection (`reply_to_only_request`), Open
--                (`open`, and `run` up to its turn; Open/Idle has a proof), Verbs (`run`, `wait`, `reply`, `steer`, ...;
--                Verbs/Reading, Cli/Reading and Main/Reading follow the frames of a command that reads).
--   Cli, Main    src/cli.rs and src/main.rs: the dispatch of a parsed command, the two backends' command lines, and
--                the exit code.
--   Output       src/core/output.rs: the end of a process that cannot write to stdout.
--
-- State and effects. A method that changes state and may fail is a function from a state to a result and a state.
-- What is written before a failure stays written. Frames, lines and commands are kept newest first. Instants are
-- milliseconds. The session's loop runs over a schedule of polls, each with the clock and the events that arrived;
-- it is `waiting` when the schedule ends. A deadline that does not fit into an `Instant` is a panic, which ends the
-- process with 101; sums of the clock and ten seconds are taken to fit, as is a budget of milliseconds.
--
-- Fuel. The polling loops of Daemon (every 250 ms) and Dsh/Launch (every 200 ms) run on fuel, budget / period + 2:
-- each turn lets at least a period pass, so that the deadline comes first (Daemon/Waits, Dsh/Launch/Waits).
--
-- Not modelled: the command line's parser, that the process is gone where standard
-- output fails (Output has the end itself), what a spawned process is given (session or console, directory, streams), the
-- websocket's handshake and its time limits, the server, and the plugin at dsh's end.
pub mod Backend
pub mod Cli
pub mod Codex
pub mod Common
pub mod Config
pub mod Connection
pub mod Daemon
pub mod Dsh
pub mod Host
pub mod Json
pub mod Logging
pub mod Main
pub mod Output
pub mod Paths
pub mod Process
pub mod Rpc
pub mod Samples
pub mod Session
