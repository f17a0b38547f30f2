-- ===== src/Dsh.antt =====
-- The dsh backend, src/backend/dsh/mod.rs: the operations of the trait `Backend`.
mod Tests
pub mod Wire
pub mod Approvals
pub mod Messages
pub mod Normalize
pub mod Ui
pub mod Launch
use codex_bridge.Common.{
  Bool, true, false, String, Option, none, some, List, [], ◌∷◌, Act, Result, ok, err, pure, bail,
  lift, with_ctx, ◌>>=◌, ◌>>◌, ◌⧺◌, ◌==◌, ◌||◌, or_else, unwrap_or, ok_or, if◌then◌else◌,
}
use codex_bridge.Json.{Value, bool, str, get, get_str, get_or_null, object, set_key}
use codex_bridge.Connection.{World, request}
use codex_bridge.Backend.{StartedThread, ModelSettings, Thread, RunArgs, Backend, defer_completion}
use Approvals.{Decision, response_for, unattended_code, unattended_message}
use Messages.{
  started_thread, status_type, normalize_thread, same_request_id, turn_id_of, turn_id_wire,
}
use Normalize.{normalize}
use Ui.{logged_ui_url, ui_url}
use Launch.{daemon_command, after_ready, daemon_fields}

-- dsh::cli::RunArgs
pub record DshRun : Type 0 where
  pub common : RunArgs
  pub approval : Option String
  pub title : Option String

abbrev opt_field : String → Option String → Value → Value
opt_field k none v = v
opt_field k (some s) v = set_key k (str s) v

abbrev pub client_info : Value
client_info =
    object
      (("clientInfo", object (("name", str "agent-bridge") ∷ ("version", str "0.2.0") ∷ [])) ∷ [])

-- The log's URL, else the server's, else the default.
pub connect_url : Value → World → String
connect_url initialized w =
    let log = w.outside.log_text w.machine.trace in
    unwrap_or (or_else (logged_ui_url log) (get_str "uiUrl" initialized)) (ui_url w.outside log)

unfoldable pub connect : String → Act World Value
unfolding connect_url
connect url = do
  initialized ← with_ctx "handshake failed" (request "initialize" client_info)
  (λ w. (ok (object (("uiUrl", str (connect_url initialized w)) ∷ [])), w))

start_params : DshRun → Option String → ModelSettings → Value
start_params run instructions settings = opt_field "developerInstructions" instructions (
    opt_field "title" run.title (
      opt_field "reasoningEffort" settings.effort (
        opt_field "model" settings.model (
          opt_field "provider" settings.provider (
            opt_field "approval" run.approval (
              opt_field "sandbox" run.common.sandbox
                (opt_field "cwd" run.common.cwd (object []))))))))

unfoldable pub start_thread : DshRun → Option String → ModelSettings → Act World StartedThread
unfolding start_params
start_thread run instructions settings = do
  result ←
      with_ctx "thread/start failed"
        (request "thread/start" (start_params run instructions settings))
  lift (started_thread result)

resume_request : String → Act World Value
resume_request id =
    with_ctx "thread/resume failed" (request "thread/resume" (object (("threadId", str id) ∷ [])))

unfoldable pub start_existing_thread : String → Act World StartedThread
unfolding resume_request
start_existing_thread id = do result ← resume_request id; lift (started_thread result)

unfoldable pub resume_thread : String → Act World Thread
unfolding resume_request
resume_thread id = do
  result ← resume_request id
  if status_type result == "idle" || status_type result == "running"
      then pure (normalize_thread id result)
      else bail ("thread " ⧺ id ⧺ " returned unknown status " ⧺ status_type result)

unfoldable pub subscribe : String → Act World Unit
unfolding resume_request
subscribe id = do result ← resume_request id; pure tt

unfoldable pub read_thread : String → Bool → Act World Thread
read_thread id include_turns = do
  result ← with_ctx "thread/read failed" (
      request "thread/read"
        (object (("threadId", str id) ∷ ("includeTurns", bool include_turns) ∷ [])))
  pure (normalize_thread id result)

unfoldable pub start_turn : String → String → ModelSettings → Act World String
start_turn id prompt settings = do
  result ←
      with_ctx "turn/start failed"
        (request "turn/start" (object (("threadId", str id) ∷ ("text", str prompt) ∷ [])))
  lift (ok_or (turn_id_of (get "turnId" result)) "turn/start returned no turnId")

unfoldable pub steer : String → String → String → Act World Value
steer id turn text = with_ctx "turn/steer failed" (
    request "turn/steer" (
      object
        (("threadId", str id) ∷ ("expectedTurnId", turn_id_wire turn) ∷ ("text", str text) ∷ [])))

unfoldable pub interrupt : String → String → Act World Value
interrupt id turn =
    with_ctx "turn/interrupt failed" (
      request "turn/interrupt" (object (("threadId", str id) ∷ ("turnId", turn_id_wire turn) ∷ [])))

unfoldable pub started_fields : StartedThread → Value → Value
started_fields started metadata = set_key "uiUrl" (get_or_null "uiUrl" metadata) started.fields

unfoldable pub dsh : Backend DshRun Decision
unfolding connect start_thread start_existing_thread resume_thread subscribe read_thread start_turn
    steer interrupt started_fields
dsh = record {
  common = λ run. run.common;
  wait_policy = record {
    deadlines_first = true;
    isolate_selected_request = true;
    request_is_progress = false;
  };
  state_name = "dsh";
  env_prefix = "AGENT_BRIDGE_DSH_";
  daemon_command = daemon_command;
  after_ready = after_ready;
  daemon_fields = daemon_fields;
  connect = connect;
  start_thread = start_thread;
  start_existing_thread = start_existing_thread;
  resume_thread = resume_thread;
  subscribe = subscribe;
  read_thread = read_thread;
  start_turn = start_turn;
  steer = steer;
  interrupt = interrupt;
  normalize = normalize;
  defer_during_selection = defer_completion;
  decision_response = response_for;
  unattended = (unattended_code, unattended_message);
  same_request_id = same_request_id;
  attach = λ url id cwd w. w;
  started_fields = started_fields;
}
