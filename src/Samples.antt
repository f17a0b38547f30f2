-- ===== src/Samples.antt =====
-- Concrete values for the tests: an outside, a connection, a session, and what the server sends.
use codex_bridge.Rpc as rpc
use codex_bridge.Rpc.{server_request}
use codex_bridge.Session.Wake.{Poll}
use codex_bridge.Cli.{Inputs}
use codex_bridge.Config.{not_found, no_config}
use codex_bridge.Common.{List, ℕ, true, false, String, none, some, [], ◌∷◌, ◌⧺◌, ok, err}
use codex_bridge.Common.Decimal.{pos}
use codex_bridge.Json.{Value, num, int, str, object}
use codex_bridge.Host.{Outside, Machine}
use codex_bridge.Rpc.{Codec}
use codex_bridge.Connection.{World}
use codex_bridge.Logging.{Emitter}
use codex_bridge.Backend.{WaitFlags, EventContext, Request}
use codex_bridge.Dsh.Wire.{wire}
use codex_bridge.Session.Handle.{Session, Loop, PendingReply, ReplyPayload, result_json}

-- A parser that knows one text.
abbrev pub response_frame : Value
response_frame =
    object (("id", str "client-0") ∷ ("jsonrpc", str "2.0") ∷ ("result", str "done") ∷ [])

abbrev pub codec : Codec
codec = record { parse = λ text. ok response_frame; display = λ v. "value"; lossy = λ bytes. "" }

-- An outside where all succeeds, and where the daemon answers from the second effect on.
abbrev pub outside : Outside
outside = record {
  windows = false;
  accepts = λ frames. none;
  answers = λ frames. none;
  runs = λ commands. err "no such program";
  display = λ v. "value";
  env = λ name. none;
  temp_dir = "/tmp";
  current_dir = some "/work";
  is_file = λ path. true;
  is_executable = λ path. true;
  is_absolute = λ path. true;
  join = λ dir name. dir ⧺ ("/" ⧺ name);
  split_paths = λ paths. paths ∷ [];
  creates_dir = λ path. ok tt;
  opens = λ path. ok tt;
  clones_log = ok tt;
  debug = λ command. command.program;
  log_text = λ trace. none;
  log_length = λ trace. 0;
  log_tail = λ trace offset. none;
  probe_line = λ trace. some "HTTP/1.1 200 OK";
  takes = λ trace. 5;
  spawns = λ trace. ok 77;
  kills = λ trace pid signal. true;
  outputs = λ trace command. none;
  usable_handle = λ handle. true;
  writes_pid = λ trace. true;
  removes_pid = λ trace. true;
  appends = λ lines. true;
  debug_error = λ text. text;
  panic_text = λ message. message;
}

abbrev pub machine : Machine
machine = record { trace = []; clock = 1000; pid_file = none }

abbrev pub world : World
world = record {
  outside = outside;
  protocol = wire codec;
  next_id = pos 0;
  sent = [];
  stdout = [];
  stderr = [];
  commands = [];
  machine = machine;
}

abbrev pub emitter : ℕ → Emitter
emitter unlogged = record {
  log = some [];
  log_path = some "/tmp/logs/t1.jsonl";
  unlogged_events = unlogged;
  suppress_log = false;
}

abbrev pub session : ℕ → Session
session unlogged = record {
  world = world;
  events = record { queue = []; ended = false };
  thread_id = "t1";
  turn_id = some "7";
  final_message = "";
  out = emitter unlogged;
}

module _ (D : Type 0) where
  abbrev pub payload : ReplyPayload D
  payload = result_json (str "yes")

  abbrev pub pending_reply : PendingReply D
  pending_reply = record { id = str "r1"; payload = payload; deadline = 11000 }

  abbrev pub waiting_loop : ℕ → Loop D
  waiting_loop unlogged = record {
    session = session unlogged;
    reply = some pending_reply;
    last_item = 1000;
  }

abbrev pub flags : WaitFlags
flags = record { stall_secs = 600; timeout_secs = 60; auto_decline = false; follow = false }

abbrev pub context : EventContext
context = record { thread_id = "t1"; turn_id = some "7"; reply_pending = false }

abbrev pub params : Value
params =
    object
      (("threadId", str "t1") ∷ ("turnId", num (int (pos 7))) ∷ ("status", str "completed") ∷ [])

abbrev pub request_of : String → Request
request_of id = record {
  id = str id;
  method = "approval/request";
  params = params;
  thread_id = some "t1";
}

-- No file can be read, and no configuration is there.
abbrev pub inputs : Inputs
inputs = record {
  read_to_string = λ path. err "no such file";
  read_config = λ path. not_found;
  from_toml = λ text. ok no_config;
  parse = λ text. err "expected value";
  events = record { queue = []; ended = false };
  now = 1000;
  polls = [];
}

-- Two requests arrive, then the clock reaches the timeout.
abbrev pub wire_request : String → rpc.Event
wire_request id = server_request (str id) "approval/request" params

abbrev pub polls : List Poll
polls =
    record { now = 1500; arrived = wire_request "r2" ∷ wire_request "r1" ∷ []; ended = false }
    ∷ record { now = 1600; arrived = []; ended = false }
    ∷ record { now = 61000; arrived = []; ended = false }
    ∷ []

abbrev pub early_polls : List Poll
early_polls = record { now = 1500; arrived = wire_request "r2" ∷ []; ended = false } ∷ []
