-- ===== src/Codex/Messages.antt =====
-- The functions at the end of src/backend/codex/mod.rs: reading the app-server's JSON.
pub mod SameId
use codex_bridge.Common.{
  Bool, true, false, String, Option, none, some, List, [], ◌∷◌, map, ◌==◌, if◌then◌else◌, and_then,
  unwrap_or, or_else, is_some_and,
}
use codex_bridge.Common.Decimal.{ℤ, show_ℤ}
use codex_bridge.Json.{
  Value, str, get, get_str, get_or_null, pointer, as_str, as_array, as_i64, object, set_key,
  value_eq, copy_keys,
}
use codex_bridge.Backend.{Turn, Thread, Event, update}

-- One entry of `model_fields`: below `thread`, else beside it.
model_field : Value → String → Option String
model_field result wire =
    or_else (and_then (and_then (get "thread" result) (get wire)) as_str) (get_str wire result)

set_field : String → Option String → Value → Value
set_field k none fields = fields
set_field k (some v) fields = set_key k (str v) fields

unfoldable pub model_fields : Value → Value
unfolding model_field set_field
model_fields result =
    set_field "effort" (model_field result "reasoningEffort")
      (set_field "model" (model_field result "model") (object []))

unfoldable pub log_update : Value → Event
log_update log =
    update (record { turn_id = none; final_message = none; progress = false; log = some log })

unfoldable pub status_type : Value → String
status_type thread = unwrap_or (and_then (pointer ("status" ∷ "type" ∷ []) thread) as_str) "unknown"

unfoldable pub terminal_fields : Value → Value
terminal_fields turn = copy_keys true ("error" ∷ "durationMs" ∷ []) turn (object [])

-- The inner loop of `last_agent_message`.
message_of_items : List Value → String → String
message_of_items [] text = text
message_of_items (item ∷ items) text = message_of_items items (
    if is_some_and (λ t. t == "agentMessage") (get_str "type" item)
    then unwrap_or (get_str "text" item) text
    else text)

message_of_turns : List Value → String → String
unfolding message_of_items
message_of_turns [] text = text
message_of_turns (turn ∷ turns) text =
    message_of_turns turns (elim (and_then (get "items" turn) as_array) [
      | some items ↦ message_of_items items text
      | none ↦ text
    ])

unfoldable pub last_agent_message : List Value → String
unfolding message_of_turns
last_agent_message turns = message_of_turns turns ""

unfoldable pub normalize_turn : Value → Turn
unfolding terminal_fields
normalize_turn turn = record {
  id = get_str "id" turn;
  status = get_or_null "status" turn;
  running = is_some_and (λ s. s == "inProgress") (get_str "status" turn);
  fields = terminal_fields turn;
}

unfoldable pub normalize_thread : String → Value → Thread
unfolding status_type last_agent_message normalize_turn
normalize_thread id thread =
    let turns = unwrap_or (and_then (get "turns" thread) as_array) [] in
    record {
      id = id;
      running = status_type thread == "active";
      status = get_or_null "status" thread;
      cwd = get_or_null "cwd" thread;
      model = get_or_null "model" thread;
      turns = map normalize_turn turns;
      final_message = last_agent_message turns;
    }

unfoldable pub thread_of : Value → Option String
thread_of params = or_else (get_str "threadId" params) (
    or_else (and_then (pointer ("thread" ∷ "id" ∷ []) params) as_str)
      (and_then (pointer ("item" ∷ "threadId" ∷ []) params) as_str))

-- A number against a text, if they are such.
id_matches : Option ℤ → Option String → Option Bool
id_matches (some n) (some s) = some (s == show_ℤ n)
id_matches _ _ = none

unfoldable pub same_request_id : Value → Value → Bool
unfolding id_matches
same_request_id expected actual =
    if value_eq expected actual
    then true
    else unwrap_or (id_matches (as_i64 expected) (as_str actual))
        (unwrap_or (id_matches (as_i64 actual) (as_str expected)) false)

unfoldable pub item_summary : String → Value → Value → Value
item_summary thread_id params item =
    copy_keys false
      ("text" ∷ "command" ∷ "exitCode" ∷ "status" ∷ "kind" ∷ "agentThreadId" ∷ "changes" ∷ []) item
      (object (
        ("event", str "item")
        ∷ ("threadId", str thread_id)
        ∷ ("turnId", get_or_null "turnId" params)
        ∷ ("itemType", str (unwrap_or (get_str "type" item) "unknown"))
        ∷ []))
