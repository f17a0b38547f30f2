-- ===== src/Codex/Normalize.antt =====
-- `Codex::normalize` of src/backend/codex/mod.rs: events of the wire become events of the core.
pub mod Laws
use codex_bridge.Common.{
  true, false, ◌&&◌, not, String, Option, none, some, [], ◌∷◌, Act, pure, ◌>>=◌, ◌>>◌, ◌==◌,
  and_then, unwrap_or, is_some_and, if◌then◌else◌,
}
use codex_bridge.Json.{Value, str, get_str, get_or_null, pointer, as_str, object}
use codex_bridge.Rpc as rpc
use codex_bridge.Rpc.{server_request, notification}
use codex_bridge.Connection.{World, request_no_reply}
use codex_bridge.Backend.{EventContext, Event, ignore, closed, request, update, turn_completed}
use codex_bridge.Codex.Messages.{thread_of, log_update, item_summary, terminal_fields}

-- A started sub-agent is unsubscribed from.
unsubscribe : Option String → Act World (Option String)
unsubscribe none = pure none
unsubscribe (some sub) = do
  request_no_reply "thread/unsubscribe" (object (("threadId", str sub) ∷ []))
  pure none

-- The `match` on an item's type.
item_message : Value → Act World (Option String)
unfolding unsubscribe
item_message item =
    if is_some_and (λ t. t == "agentMessage") (get_str "type" item)
    then pure (get_str "text" item)
    else if is_some_and (λ t. t == "subAgentActivity") (get_str "type" item)
        && is_some_and (λ k. k == "started") (get_str "kind" item)
    then unsubscribe (get_str "agentThreadId" item)
    else pure none

item_completed : String → Value → Act World Event
unfolding item_message
item_completed main params =
    let item = get_or_null "item" params in
    do
      final_message ← item_message item
      pure (
          update (record {
            turn_id = none;
            final_message = final_message;
            progress = true;
            log = some (item_summary main params item);
          }))

completed : Value → Event
completed params =
    let turn = get_or_null "turn" params in
    let turn_id = get_str "id" turn in
    let status = unwrap_or (get_str "status" turn) "failed" in
    if status == "inProgress"
    then update (record { turn_id = turn_id; final_message = none; progress = false; log = none })
    else turn_completed (record {
      turn_id = turn_id;
      status = status;
      final_message = none;
      fields = terminal_fields turn;
    })

-- The `match` on a notification's method.
normalize_notification : String → String → Value → Act World Event
unfolding item_completed completed log_update
normalize_notification main method params =
    if method == "turn/started"
    then pure (
        update (record {
          turn_id = and_then (pointer ("turn" ∷ "id" ∷ []) params) as_str;
          final_message = none;
          progress = true;
          log = none;
        }))
    else if method == "item/completed"
    then item_completed main params
    else if method == "turn/completed"
    then pure (completed params)
    else if method == "thread/status/changed"
    then pure (
        log_update (
          object (
            ("event", str "status")
            ∷ ("threadId", str main)
            ∷ ("status", get_or_null "status" params)
            ∷ [])))
    else if method == "serverRequest/resolved"
    then pure (
        log_update (
          object (
            ("event", str "requestResolved")
            ∷ ("threadId", str main)
            ∷ ("requestId", get_or_null "requestId" params)
            ∷ [])))
    else if method == "error"
    then pure (
        log_update (
          object (("event", str "serverError") ∷ ("threadId", str main) ∷ ("params", params) ∷ [])))
    else pure
        (update (record { turn_id = none; final_message = none; progress = false; log = none }))

unfoldable pub normalize : rpc.Event → EventContext → Act World Event
unfolding normalize_notification
normalize (rpc.closed reason) context = pure (closed reason)
normalize (server_request id method params) context =
    pure
      (request (record { id = id; method = method; params = params; thread_id = thread_of params }))
normalize (notification method params) context =
    if is_some_and (λ thread. not (thread == context.thread_id)) (thread_of params)
    then pure ignore
    else normalize_notification context.thread_id method params
