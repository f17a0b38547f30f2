-- ===== src/Codex.antt =====
-- The Codex backend, src/backend/codex/mod.rs: the operations of the trait `Backend`.
mod Tests
pub mod Wire
pub mod Approvals
pub mod Messages
pub mod Normalize
pub mod Pane
use codex_bridge.Common.{
  Bool, true, false, String, Option, none, some, List, [], ◌∷◌, Act, Result, ok, err, pure, bail,
  lift, with_ctx, ◌>>=◌, ◌>>◌, ◌⧺◌, ◌==◌, and_then, unwrap_or, keep_if, not, ok_or, result_ok,
  if◌then◌else◌,
}
use codex_bridge.Json.{
  Value, null, bool, str, array, of_list, get, pointer, as_str, object, set_key, opt_str,
}
use codex_bridge.Host.{Outside, Command}
use codex_bridge.Connection.{World, request, notify}
use codex_bridge.Backend.{StartedThread, ModelSettings, Thread, RunArgs, Backend, defer_completion}
use Wire.{wire}
use Approvals.{Decision, response_for, unattended_code, unattended_message}
use Messages.{model_fields, status_type, normalize_thread, same_request_id}
use Normalize.{normalize}
use Pane.{herdr_bin, open_pane}

-- codex::cli::RunArgs
pub record CodexRun : Type 0 where
  pub common : RunArgs
  pub approval : Option String

abbrev pub opt_field : String → Option String → Value → Value
opt_field k none v = v
opt_field k (some s) v = set_key k (str s) v

abbrev pub client_info : Value
client_info =
    object
      (("clientInfo", object (("name", str "agent-bridge") ∷ ("version", str "0.2.0") ∷ [])) ∷ [])

unfoldable pub daemon_command : Outside → String → Result Command
daemon_command o url = ok (record {
  program = unwrap_or (keep_if (λ bin. not (bin == "")) (o.env "AGENT_BRIDGE_CODEX_BIN")) "codex";
  args = "app-server" ∷ "--listen" ∷ url ∷ [];
})

unfoldable pub connect : String → Act World Value
connect url = do
  metadata ← with_ctx "handshake failed" (request "initialize" client_info)
  with_ctx "handshake failed" (notify "initialized" null)
  pure metadata

start_params : CodexRun → Option String → ModelSettings → Value
start_params run instructions settings = opt_field "developerInstructions" instructions (
    opt_field "model" settings.model (
      opt_field "approvalPolicy" run.approval
        (opt_field "sandbox" run.common.sandbox (opt_field "cwd" run.common.cwd (object [])))))

unfoldable pub start_thread : CodexRun → Option String → ModelSettings → Act World StartedThread
unfolding start_params
start_thread run instructions settings = do
  result ←
      with_ctx "thread/start failed"
        (request "thread/start" (start_params run instructions settings))
  id ← lift (
      ok_or (and_then (pointer ("thread" ∷ "id" ∷ []) result) as_str)
        "thread/start returned no thread.id")
  pure (record { id = id; fields = model_fields result })

abbrev pub thread_params : String → Value
thread_params id = object (("threadId", str id) ∷ [])

resume_request : String → Act World Value
resume_request id = with_ctx "thread/resume failed" (request "thread/resume" (thread_params id))

unfoldable pub start_existing_thread : String → Act World StartedThread
unfolding resume_request
start_existing_thread id = do
  result ← resume_request id
  pure (record { id = id; fields = model_fields result })

unfoldable pub resume_thread : String → Act World Thread
unfolding resume_request
resume_thread id = do
  result ← resume_request id
  let thread = unwrap_or (get "thread" result) result
  if status_type thread == "systemError"
      then bail ("thread " ⧺ id ⧺ " is in systemError")
      else pure (normalize_thread id thread)

unfoldable pub subscribe : String → Act World Unit
unfolding resume_request
subscribe id = do result ← resume_request id; pure tt

unfoldable pub read_thread : String → Bool → Act World Thread
read_thread id include_turns = do
  result ← with_ctx "thread/read failed" (
      request "thread/read"
        (object (("threadId", str id) ∷ ("includeTurns", bool include_turns) ∷ [])))
  pure (normalize_thread id (unwrap_or (get "thread" result) result))

abbrev pub text_input : String → Value
text_input text = array (of_list (object (("type", str "text") ∷ ("text", str text) ∷ []) ∷ []))

unfoldable pub start_turn : String → String → ModelSettings → Act World String
start_turn id prompt settings = do
  result ← with_ctx "turn/start failed" (
      request "turn/start" (
        opt_field "effort" settings.effort
          (object (("threadId", str id) ∷ ("input", text_input prompt) ∷ []))))
  lift (
      ok_or (and_then (pointer ("turn" ∷ "id" ∷ []) result) as_str)
        "turn/start returned no turn.id")

unfoldable pub steer : String → String → String → Act World Value
steer id turn text = with_ctx "turn/steer failed" (
    request "turn/steer" (
      object
        (("threadId", str id) ∷ ("expectedTurnId", str turn) ∷ ("input", text_input text) ∷ [])))

unfoldable pub interrupt : String → String → Act World Value
interrupt id turn =
    with_ctx "turn/interrupt failed"
      (request "turn/interrupt" (object (("threadId", str id) ∷ ("turnId", str turn) ∷ [])))

-- The directory for a pane: what the caller gave, else what the server says, else none.
pane_cwd : String → Option String → World → String × World
pane_cwd id (some cwd) w = (cwd, w)
pane_cwd id none w =
    let (r, w') = read_thread id false w in
    (unwrap_or (and_then (result_ok r) (λ t. as_str t.cwd)) "", w')

report_pane : Result (Unit {0}) × World → World
report_pane (ok _, w) = w
report_pane (err e, w) = record w { stderr = ("agent-bridge codex: herdr pane: " ⧺ e) ∷ w.stderr }

unfoldable pub attach : Bool → String → String → Option String → World → World
unfolding pane_cwd report_pane
attach no_pane url id cwd w = elim (herdr_bin no_pane w.outside) [
  | none ↦ w
  | some bin ↦ let (dir, w') = pane_cwd id cwd w in report_pane (open_pane bin id dir url w')
]

-- `no_pane` is the field of `Codex`.
unfoldable pub codex : Bool → Backend CodexRun Decision
unfolding connect start_thread start_existing_thread resume_thread subscribe read_thread start_turn
    steer interrupt attach daemon_command
codex no_pane = record {
  common = λ run. run.common;
  wait_policy = record {
    deadlines_first = false;
    isolate_selected_request = false;
    request_is_progress = true;
  };
  state_name = "codex";
  env_prefix = "AGENT_BRIDGE_CODEX_";
  daemon_command = daemon_command;
  after_ready = λ o offset report m. (object [], m);
  daemon_fields = λ o m. object [];
  connect = connect;
  start_thread = start_thread;
  start_existing_thread = start_existing_thread;
  resume_thread = resume_thread;
  subscribe = subscribe;
  read_thread = read_thread;
  start_turn = start_turn;
  steer = steer;
  interrupt = interrupt;
  normalize = normalize;
  defer_during_selection = defer_completion;
  decision_response = response_for;
  unattended = (unattended_code, unattended_message);
  same_request_id = same_request_id;
  attach = attach no_pane;
  started_fields = λ started metadata. started.fields;
}
