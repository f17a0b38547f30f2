-- ===== src/Cli.antt =====
-- src/cli.rs and src/main.rs: a parsed command becomes a verb of the session or an action of the daemon, and its
-- result the exit code. What the command reads besides, the record `Inputs`, is outside the program.
pub mod Order
pub mod Codes
pub mod Reading
mod Tests
use codex_bridge.Common.{
  ℕ, Bool, String, Option, none, some, List, [], ◌∷◌, ◌⧺◌, Result, ok, err, context,
}
use codex_bridge.Json.{Value}
use codex_bridge.Connection.{World}
use codex_bridge.Config.{Config, FileConfig, FileRead, load, resolve}
use codex_bridge.Backend.{Backend, Global, RunArgs, WaitFlags}
use codex_bridge.Daemon as daemon
use codex_bridge.Daemon.{Action}
use codex_bridge.Session.Wake.{Poll, Receiver}
use codex_bridge.Session.Handle.{ReplyPayload, decision, result_json, exit_error, error_event}
use codex_bridge.Session.Wait.{Outcome, waiting, exited, failed, panicked}
use codex_bridge.Session.Verbs as verbs
use codex_bridge.Session.Open.{on_machine}

pub record ThreadArg : Type 0 where
  pub thread : String

pub record DaemonArgs : Type 0 where
  pub action : Action

pub record WaitArgs : Type 0 where
  pub thread : String
  pub wait : WaitFlags

pub record SteerArgs : Type 0 where
  pub thread : String
  pub turn : Option String
  pub text : String

pub record ReplyArgs (Decision I : Type 0) : Type 0 where
  pub thread : String
  pub request_id : Option I
  pub choice : Option Decision
  pub result : Option String
  pub wait : WaitFlags

-- The verbs, with their arguments.
pub data Command (Run Decision I : Type 0) : Type 0 where
  run : Run → Command Run Decision I
  wait : WaitArgs → Command Run Decision I
  reply : ReplyArgs Decision I → Command Run Decision I
  steer : SteerArgs → Command Run Decision I
  interrupt : ThreadArg → Command Run Decision I
  status : ThreadArg → Command Run Decision I
  read : ThreadArg → Command Run Decision I
  manage : DaemonArgs → Command Run Decision I

-- The files that a command names, the configuration's file, serde_json's parser, and what the connection's events
-- and the clock will be.
pub record Inputs : Type 0 where
  pub read_to_string : String → Result String
  pub read_config : String → FileRead
  pub from_toml : String → Result FileConfig
  pub parse : String → Result Value
  pub events : Receiver
  pub now : ℕ
  pub polls : List Poll

read_prompt : Inputs → Option String → Result String
read_prompt i (some path) = context ("reading prompt file " ⧺ path) (i.read_to_string path)
read_prompt i none = err "clap requires a prompt"

-- RunArgs::prompt_text; clap refuses arguments without a prompt.
unfoldable pub prompt_text : Inputs → RunArgs → Result String
unfolding read_prompt
prompt_text i args = elim args.prompt [
  | some text ↦ ok text
  | none ↦ read_prompt i args.prompt_file
]

some_text : Result String → Result (Option String)
some_text (ok text) = ok (some text)
some_text (err e) = err e

-- RunArgs::developer_instructions
unfoldable pub developer_instructions : Inputs → RunArgs → Result (Option String)
unfolding some_text
developer_instructions i args = elim args.developer_instructions_file [
  | none ↦ ok none
  | some path ↦
      some_text (context ("reading developer instructions " ⧺ path) (i.read_to_string path))
]

-- The verbs that do not wait.
outcome : Result ℕ × World → Outcome × World
outcome (ok code, w) = (exited code, w)
outcome (err e, w) = (failed e, w)

parsed_payload : {D : Type 0} → Result Value → Result (ReplyPayload D)
parsed_payload (ok v) = ok (result_json v)
parsed_payload (err e) = err e

module _ {Run D I : Type 0} (b : Backend Run D) (into : I → Value) where
  raw_payload : Inputs → Option String → Result (ReplyPayload D)
  unfolding parsed_payload
  raw_payload i (some raw) =
      parsed_payload (context "--result-json is not valid JSON" (i.parse raw))
  raw_payload i none = err "clap requires a reply payload"

  -- The `match` on the decision and the result.
  unfoldable pub payload : Inputs → ReplyArgs D I → Result (ReplyPayload D)
  unfolding raw_payload
  payload i args = elim args.choice [ some d ↦ ok (decision d) | none ↦ raw_payload i args.result ]

  into_value : Option I → Option Value
  into_value none = none
  into_value (some id) = some (into id)

  run_with :
      Inputs
      → Config
      → Global
      → Run
      → Result String
      → Result (Option String)
      → World
      → Outcome × World
  run_with i config global args (err e) instructions w = (failed e, w)
  run_with i config global args (ok prompt) (err e) w = (failed e, w)
  run_with i config global args (ok prompt) (ok instructions) w =
      verbs.run b global args prompt instructions (resolve config b.state_name (b.common args))
        i.events i.now i.polls w

  reply_with : Inputs → Global → ReplyArgs D I → Result (ReplyPayload D) → World → Outcome × World
  unfolding into_value
  reply_with i global args (err e) w = (failed e, w)
  reply_with i global args (ok p) w =
      verbs.reply b global args.thread (into_value args.request_id) p args.wait i.events i.now
        i.polls w

  dispatch_with : Inputs → Config → Global → Command Run D I → World → Outcome × World
  unfolding outcome prompt_text developer_instructions payload run_with reply_with
  dispatch_with i config global (run args) w =
      run_with i config global args (prompt_text i (b.common args))
        (developer_instructions i (b.common args)) w
  dispatch_with i config global (wait args) w =
      verbs.wait b global args.thread args.wait i.events i.now i.polls w
  dispatch_with i config global (reply args) w = reply_with i global args (payload i args) w
  dispatch_with i config global (steer args) w =
      outcome (verbs.steer b global args.thread args.turn args.text w)
  dispatch_with i config global (interrupt args) w =
      outcome (verbs.interrupt b global args.thread w)
  dispatch_with i config global (status args) w = outcome (verbs.status b global args.thread w)
  dispatch_with i config global (read args) w = outcome (verbs.read b global args.thread w)
  dispatch_with i config global (manage args) w =
      outcome (on_machine (daemon.run b w.outside global.url args.action) w)

  with_config : Inputs → Result Config → Global → Command Run D I → World → Outcome × World
  unfolding dispatch_with
  with_config i (err e) global command w = (failed e, w)
  with_config i (ok config) global command w = dispatch_with i config global command w

  -- The configuration is loaded first, whatever the command is.
  unfoldable pub dispatch : Inputs → Global → Command Run D I → World → Outcome × World
  unfolding with_config
  dispatch i global command w =
      with_config i (load i.from_toml i.read_config w.outside) global command w

-- The end of `main`: an error is a line on stdout and one on stderr, and the code 4; a panic ends the process with 101.
-- `none` while the command still waits.
unfoldable pub exit_code : Outcome × World → Option ℕ × World
exit_code (waiting, w) = (none, w)
exit_code (exited code, w) = (some code, w)
exit_code (failed e, w) = (
  some exit_error,
  record w {
    stdout = error_event e ∷ w.stdout;
    stderr = ("agent-bridge: " ⧺ w.outside.debug_error e) ∷ w.stderr;
  },
)
exit_code (panicked, w) = (
  some 101,
  record w { stderr = w.outside.panic_text "overflow when adding duration to instant" ∷ w.stderr },
)
