-- ===== src/Session/Handle/State.antt =====
-- The session of src/core/session.rs, the loop's variables, and the lines that it emits.
use codex_bridge.Common.{
  ℕ, Bool, String, Option, none, [], ◌∷◌, ◌==◌, Result, or_else, unwrap_or, if◌then◌else◌,
}
use codex_bridge.Json.{Value, str, object, opt_str, extend_fields}
use codex_bridge.Connection.{World}
use codex_bridge.Logging.{Emitter, emit, write_log}
use codex_bridge.Backend.{EventContext}
use codex_bridge.Session.Wake.{Receiver}

abbrev pub exit_completed : ℕ
exit_completed = 0

abbrev pub exit_turn_not_completed : ℕ
exit_turn_not_completed = 1

abbrev pub exit_request_pending : ℕ
exit_request_pending = 2

abbrev pub exit_stalled : ℕ
exit_stalled = 3

abbrev pub exit_error : ℕ
exit_error = 4

pub data ReplyPayload (D : Type 0) : Type 0 where
  decision : D → ReplyPayload D
  result_json : Value → ReplyPayload D

pub record PendingReply (D : Type 0) : Type 0 where
  pub id : Value
  pub payload : ReplyPayload D
  pub deadline : ℕ

-- `conn` is the world; the backend is the section's parameter below.
pub record Session : Type 0 where
  pub world : World
  pub events : Receiver
  pub thread_id : String
  pub turn_id : Option String
  pub final_message : String
  pub out : Emitter

pub data Step : Type 0 where
  continue : Step
  exit : ℕ → Step

-- A session with the variables that `wait_loop` lends to `handle`.
pub record Loop (D : Type 0) : Type 0 where
  pub session : Session
  pub reply : Option (PendingReply D)
  pub last_item : ℕ

-- Session::new
unfoldable pub new_session : World → Receiver → String → Emitter → Session
new_session w events thread_id out = record {
  world = w;
  events = events;
  thread_id = thread_id;
  turn_id = none;
  final_message = "";
  out = out;
}

unfoldable pub event_context : Session → Bool → EventContext
event_context s reply_pending = record {
  thread_id = s.thread_id;
  turn_id = s.turn_id;
  reply_pending = reply_pending;
}

-- An action of the connection or of the backend.
abbrev pub on_world {ℓ} : {A : Type ℓ} → (World → Result A × World) → Session → Result A × Session
on_world m s = let (r, w) = m s.world in (r, record s { world = w })

unfoldable pub emit_event : Value → Session → Session
unfolding emit
emit_event value s = let (out, w) = emit value s.out s.world in record s { out = out; world = w }

unfoldable pub log_event : Value → Session → Session
unfolding write_log
log_event value s = record s { out = write_log s.world.outside value s.out }

unfoldable pub turn_event : String → Value → Session → Value
turn_event status fields s =
    extend_fields
      (object (
        ("event", str "turn")
        ∷ ("status", str status)
        ∷ ("threadId", str s.thread_id)
        ∷ ("turnId", opt_str s.turn_id)
        ∷ ("finalMessage", str s.final_message)
        ∷ []))
      fields

abbrev pub turn_code : String → ℕ
turn_code status = if status == "completed" then exit_completed else exit_turn_not_completed

unfoldable pub emit_turn : String → Value → Session → ℕ × Session
unfolding turn_event emit_event
emit_turn status fields s = (turn_code status, emit_event (turn_event status fields s) s)

abbrev pub error_event : String → Value
error_event message = object (("event", str "error") ∷ ("message", str message) ∷ [])

abbrev pub set_turn : Option String → Option String → Session → Session
set_turn turn_id final_message s = record s {
  turn_id = or_else turn_id s.turn_id;
  final_message = unwrap_or final_message s.final_message;
}
