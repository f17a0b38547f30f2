-- ===== src/Main.antt =====
-- src/main.rs: what clap made of the command line, to the exit code. The two `Cli` are those of
-- src/backend/codex/cli.rs and src/backend/dsh/cli.rs.
pub mod Codes
pub mod Reading
mod Tests
use codex_bridge.Common.{
  ℕ, Bool, true, false, String, Option, none, some, ◌∷◌, Result, ok, err, or_else, if◌then◌else◌,
}
use codex_bridge.Common.Decimal.{ℤ}
use codex_bridge.Json.{Value, num, int, str}
use codex_bridge.Rpc.{Codec}
use codex_bridge.Connection.{World}
use codex_bridge.Backend.{Global}
use codex_bridge.Codex.{codex, CodexRun}
use codex_bridge.Codex.Approvals as codex_approvals
use codex_bridge.Codex.Wire as codex_wire
use codex_bridge.Dsh.{dsh, DshRun}
use codex_bridge.Dsh.Approvals as dsh_approvals
use codex_bridge.Dsh.Wire as dsh_wire
use codex_bridge.Session.Handle.{exit_error}
use codex_bridge.Output.{Exit, check_stdout, flush_stdout}
use codex_bridge.Cli.{Inputs, Command, dispatch, exit_code}

pub record LogFlags : Type 0 where
  pub log : Option String
  pub no_log : Bool

pub record CodexCli : Type 0 where
  pub url : String
  pub log : LogFlags
  pub no_pane : Bool
  pub command : Command CodexRun codex_approvals.Decision ℤ

pub record DshCli : Type 0 where
  pub url : String
  pub log : LogFlags
  pub command : Command DshRun dsh_approvals.Decision String

-- `try_parse`: a command, or an error with the stream that its text is for. For stdout: how the print and the flush go.
pub data Parsed : Type 0 where
  codex_command : CodexCli → Parsed
  dsh_command : DshCli → Parsed
  usage_error : Parsed
  information : Result (Unit {0}) → Result (Unit {0}) → Parsed

abbrev pub global_of : String → LogFlags → Global
global_of url flags = record { url = url; log = flags.log; no_log = flags.no_log }

-- I64 and String into a JSON value
abbrev pub number_id : ℤ → Value
number_id z = num (int z)

abbrev pub text_id : String → Value
text_id s = str s

-- The exit after a text for stdout, such as the help.
unfoldable pub shown : Option Exit → World → Option ℕ × World
shown none w = (some 0, w)
shown (some x) w = (some x.status, record w { stderr = x.stderr_line ∷ w.stderr })

-- `connect` of a backend is given its own protocol.
unfoldable pub main : Codec → Inputs → Parsed → World → Option ℕ × World
unfolding shown
main c i (codex_command args) w = exit_code (
    dispatch (codex args.no_pane) number_id i (global_of args.url args.log) args.command
      (record w { protocol = codex_wire.wire c }))
main c i (dsh_command args) w = exit_code (
    dispatch dsh text_id i (global_of args.url args.log) args.command
      (record w { protocol = dsh_wire.wire c }))
main c i usage_error w = (some exit_error, w)
main c i (information printed flushed) w =
    shown (or_else (check_stdout printed) (flush_stdout flushed)) w
