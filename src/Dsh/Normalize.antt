-- ===== src/Dsh/Normalize.antt =====
-- `Dsh::normalize` of src/backend/dsh/mod.rs: events of the wire become events of the core.
pub mod Laws
use codex_bridge.Common.{
  Bool, true, false, ◌&&◌, ◌||◌, not, String, Option, none, some, [], ◌∷◌, Act, Result, ok, err,
  and_ok, ok_or, lift, ◌==◌, ◌⧺◌, and_then, is_some, is_some_and, if◌then◌else◌,
}
use codex_bridge.Json.{Value, str, get, get_str, get_or_null, object}
use codex_bridge.Rpc as rpc
use codex_bridge.Rpc.{server_request, notification}
use codex_bridge.Connection.{World}
use codex_bridge.Backend.{
  EventContext, Event, ignore, closed, request, update, turn_completed, request_resolved,
}
use codex_bridge.Dsh.Messages.{thread_of, turn_id_of, event_message, terminal_fields}

thread_event : String → Value → Event
thread_event main params = update (record {
  turn_id = none;
  final_message =
      if is_some_and (λ t. t == "assistant/message") (get_str "type" params)
      then and_then (get "data" params) event_message
      else none;
  progress = true;
  log = some (
      object (
        ("event", str "item")
        ∷ ("threadId", str main)
        ∷ ("seq", get_or_null "seq" params)
        ∷ ("itemType", get_or_null "type" params)
        ∷ ("data", get_or_null "data" params)
        ∷ []));
})

abbrev pub is_terminal : String → Bool
is_terminal status = status == "completed" || (status == "failed" || status == "interrupted")

complete_turn : Value → String → String → Result Event
complete_turn params turn_id status =
    if is_terminal status
    then ok (
        turn_completed (record {
          turn_id = some turn_id;
          status = status;
          final_message = get_str "finalMessage" params;
          fields = terminal_fields params;
        }))
    else err ("turn/completed returned unknown status " ⧺ status)

completed : Value → EventContext → Result Event
unfolding complete_turn
completed params context =
    if context.reply_pending
    then err "turn ended before the pending server request was re-delivered"
    else and_ok (ok_or (turn_id_of (get "turnId" params)) "turn/completed returned no turnId")
        λ turn_id.
          if is_some_and (λ expected. not (expected == turn_id)) context.turn_id
          then ok ignore
          else and_ok (ok_or (get_str "status" params) "turn/completed returned no status")
              (complete_turn params turn_id)

-- The `match` on a notification's method.
normalize_notification : String → Value → EventContext → Result Event
unfolding thread_event completed
normalize_notification method params context =
    let main = context.thread_id in
    if method == "turn/started" && not (is_some context.turn_id)
    then ok (
        update (record {
          turn_id = turn_id_of (get "turnId" params);
          final_message = none;
          progress = false;
          log = none;
        }))
    else if method == "thread/event"
    then ok (thread_event main params)
    else if method == "turn/completed"
    then completed params context
    else if method == "thread/status"
    then ok (
        update (record {
          turn_id = none;
          final_message = none;
          progress = false;
          log = some (
              object (
                ("event", str "status")
                ∷ ("threadId", str main)
                ∷ ("status", get_or_null "status" params)
                ∷ []));
        }))
    else if method == "request/resolved"
    then ok (
        request_resolved (get_or_null "requestId" params) (
          object (
            ("event", str "requestResolved")
            ∷ ("threadId", str main)
            ∷ ("requestId", get_or_null "requestId" params)
            ∷ ("resolvedBy", get_or_null "resolvedBy" params)
            ∷ [])))
    else ok ignore

abbrev pub is_thread : String → Option String → Bool
is_thread main thread = is_some_and (λ t. t == main) thread

-- The part of `normalize` that needs no connection: all of it.
unfoldable pub normalize_event : rpc.Event → EventContext → Result Event
unfolding normalize_notification
normalize_event (rpc.closed reason) context = ok (closed reason)
normalize_event (server_request id method params) context =
    if is_thread context.thread_id (thread_of params)
    then ok (
        request
          (record { id = id; method = method; params = params; thread_id = thread_of params }))
    else ok ignore
normalize_event (notification method params) context =
    if is_thread context.thread_id (thread_of params)
    then normalize_notification method params context
    else ok ignore

unfoldable pub normalize : rpc.Event → EventContext → Act World Event
unfolding normalize_event
normalize event context = lift (normalize_event event context)
