-- ===== src/Cli/Tests.antt =====
-- A command with a prompt file that does not exist.
use codex_bridge.Common.{◌⧺◌, ◌≡◌, refl, false, String, none, some, [], ◌∷◌, err}
use codex_bridge.Json.{str}
use codex_bridge.Backend.{Global}
use codex_bridge.Dsh.{dsh, DshRun}
use codex_bridge.Dsh.Approvals.{Decision}
use codex_bridge.Session.Handle.{exit_error, error_event}
use codex_bridge.Session.Wait.{failed}
use codex_bridge.Samples.{world, flags, inputs}
use codex_bridge.Cli.{Command, run, prompt_text, dispatch, exit_code}
use codex_bridge.Cli.Order.{prompt, dispatch_unread}

abbrev args : DshRun
args = record {
  common = record {
    thread = none;
    cwd = some "/work";
    prompt = none;
    prompt_file = some "prompt.txt";
    sandbox = none;
    model = none;
    effort = none;
    developer_instructions_file = none;
    no_wait = false;
    wait = flags;
  };
  title = none;
  approval = none;
}

abbrev message : String
message = "reading prompt file prompt.txt: no such file"

unreadable : prompt_text inputs (dsh.common args) ≡ err message
unfolding prompt_text dsh
unreadable = refl

abbrev global : Global
global = record { url = "ws://127.0.0.1:4500"; log = none; no_log = false }

abbrev command : Command DshRun Decision String
command = run args

dispatch_unread_example :
    (x : String) × (dispatch dsh str inputs global command world ≡ (failed x, world))
    × (exit_code (dispatch dsh str inputs global command world) ≡ (
      some exit_error,
      record world { stdout = error_event x ∷ []; stderr = ("agent-bridge: " ⧺ x) ∷ [] },
    ))
dispatch_unread_example =
    dispatch_unread dsh str inputs global world command message (prompt args message unreadable)
