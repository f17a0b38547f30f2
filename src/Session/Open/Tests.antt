-- ===== src/Session/Open/Tests.antt =====
-- `run` over dsh, with a server that answers every request with the same thread and turn.
use codex_bridge.Common.{◌≡◌, refl, false, String, none, some, [], ◌∷◌, Result, ok, err}
use codex_bridge.Common.Decimal.{pos}
use codex_bridge.Json.{Value, str, num, int, object}
use codex_bridge.Rpc.{answered}
use codex_bridge.Connection.{World}
use codex_bridge.Backend.{Global, no_settings}
use codex_bridge.Dsh.{dsh, DshRun}
use codex_bridge.Samples.{outside, world, flags, session}
use codex_bridge.Session.Wake.{Receiver}
use codex_bridge.Session.Handle.{Session}
use codex_bridge.Session.Open.{begin_run}
use codex_bridge.Session.Open.Idle.{IsIdleStart, begin_run-IsIdleStart}

abbrev willing : World
willing = record world {
  outside = record outside {
    answers = λ frames. some (
        answered (
          object (
            ("threadId", str "t1") ∷ ("title", str "hello") ∷ ("turnId", num (int (pos 7))) ∷ [])));
  };
}

abbrev global : Global
global = record { url = "ws://127.0.0.1:4500"; log = none; no_log = false }

abbrev args : DshRun
args = record {
  common = record {
    thread = none;
    cwd = some "/work";
    prompt = some "hello";
    prompt_file = none;
    sandbox = none;
    model = none;
    effort = none;
    developer_instructions_file = none;
    no_wait = false;
    wait = flags;
  };
  title = none;
  approval = none;
}

abbrev quiet : Receiver
quiet = record { queue = []; ended = false }

abbrev begun : Result Session
begun = (begin_run dsh global args "hello" none no_settings quiet willing).0

abbrev session_of : Result Session → Session
session_of (ok s) = s
session_of (err e) = session 0

begins : begun ≡ ok (session_of begun)
unfolding begin_run dsh codex_bridge.Logging.new codex_bridge.Daemon.ensure
    codex_bridge.Daemon.bring_up codex_bridge.Daemon.probe_ready codex_bridge.Common.Text.split_once
    codex_bridge.Common.Text.before_slash codex_bridge.Common.Text.contains
    codex_bridge.Connection.request codex_bridge.Dsh.Messages.started_thread object
    codex_bridge.Json.lookup codex_bridge.Json.insert codex_bridge.Logging.for_thread
    codex_bridge.Common.Text.components codex_bridge.Dsh.Messages.turn_id_of
    codex_bridge.Dsh.Messages.normalize_thread
begins = refl

begin_run-IsIdleStart_example : IsIdleStart dsh "hello" no_settings (session_of begun)
begin_run-IsIdleStart_example =
    begin_run-IsIdleStart dsh global args "hello" none no_settings quiet willing (session_of begun)
      begins
