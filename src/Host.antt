-- ===== src/Host.antt =====
-- What is outside the program: the server at the other end, external commands, the environment and
-- the file system; and the machine that src/core/daemon.rs acts on, by a trace of its effects.
use codex_bridge.Common.{ℕ, ◌+◌, Bool, String, Option, List, ◌∷◌, Result}
use codex_bridge.Common.Decimal.{ℤ}
use codex_bridge.Json.{Value}
use codex_bridge.Rpc.{Outcome}

-- A spawned command's output: its success, stdout as JSON if it parses, stderr trimmed.
pub record CommandOutput : Type 0 where
  pub success : Bool
  pub stdout_json : Option Value
  pub stderr_text : String

pub record Command : Type 0 where
  pub program : String
  pub args : List String

-- `Command::output` of a program: its success, and its stdout with invalid UTF-8 replaced.
pub record ProcessOutput : Type 0 where
  pub success : Bool
  pub stdout : String

-- Those of `GetStdHandle`.
pub data StdHandle : Type 0 where
  std_input std_output std_error : StdHandle

pub data Effect : Type 0 where
  probed : Effect
  slept : ℕ → Effect
  spawned : Command → Effect
  -- `kill`, with the process and the signal
  signalled : ℤ → ℕ → Effect
  -- a program that is run to its end
  ran : Command → Effect
  -- `SetHandleInformation`, which takes the flag to inherit the handle away
  uninherited : StdHandle → Effect
  printed : Value → Effect
  warned : String → Effect

-- Each history that an answer depends on is newest first.
pub record Outside : Type 0 where
  -- `cfg!(windows)`
  pub windows : Bool
  -- whether the socket takes the newest frame of a history, or the error
  pub accepts : List Value → Option String
  -- how the request at the head of a history is answered; nothing when its sender is dropped
  pub answers : List Value → Option Outcome
  -- how the command at the head of a history runs
  pub runs : List (List String) → Result CommandOutput
  -- serde_json's text of a value
  pub display : Value → String
  -- the variables that are set and are Unicode, `temp_dir`, `current_dir`
  pub env : String → Option String
  pub temp_dir : String
  pub current_dir : Option String
  -- `Path::is_file`, `access` with `X_OK`, `Path::is_absolute`, `Path::join`, `env::split_paths`
  pub is_file : String → Bool
  pub is_executable : String → Bool
  pub is_absolute : String → Bool
  pub join : String → String → String
  pub split_paths : String → List String
  -- `create_dir_all`, and opening a file to append to it
  pub creates_dir : String → Result (Unit {0})
  pub opens : String → Result (Unit {0})
  pub clones_log : Result (Unit {0})
  -- `{:?}` of a command
  pub debug : Command → String
  -- the daemon's log: its text, its length in bytes, and its text from an offset on
  pub log_text : List Effect → Option String
  pub log_length : List Effect → ℕ
  pub log_tail : List Effect → ℕ → Option String
  -- the first line that a probe reads within its time limit
  pub probe_line : List Effect → Option String
  -- the milliseconds that the newest effect takes, beyond a sleep's own
  pub takes : List Effect → ℕ
  -- the process that the newest effect spawns, and whether `kill` of a process by a signal yields 0
  pub spawns : List Effect → Result ℕ
  pub kills : List Effect → ℤ → ℕ → Bool
  -- the output of a program behind a history, if it runs
  pub outputs : List Effect → Command → Option ProcessOutput
  -- whether `GetStdHandle` yields a handle that is neither null nor invalid
  pub usable_handle : StdHandle → Bool
  -- whether the pid file is written and removed
  pub writes_pid : List Effect → Bool
  pub removes_pid : List Effect → Bool
  -- whether the newest of the lines is written to a log file that is open
  pub appends : List Value → Bool
  -- anyhow's `{:?}` of the error whose `{:#}` is the text, and what the panic hook prints for a message
  pub debug_error : String → String
  pub panic_text : String → String

pub record Machine : Type 0 where
  pub trace : List Effect
  pub clock : ℕ
  pub pid_file : Option String

-- An effect takes time.
unfoldable pub act : Outside → Effect → ℕ → Machine → Machine
act o e least m = record m { trace = e ∷ m.trace; clock = m.clock + least + o.takes (e ∷ m.trace) }
