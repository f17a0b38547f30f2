-- ===== src/Dsh/Messages.antt =====
-- The functions at the end of src/backend/dsh/mod.rs: reading the plugin's JSON.
pub mod RoundTrip
use codex_bridge.Common.{
  Bool, true, ◌&&◌, ◌||◌, not, String, Option, none, some, List, [], ◌∷◌, map, last, ◌==◌, ◌⧺◌,
  if◌then◌else◌, and_then, unwrap_or, keep_if, is_some_and, Result, ok, and_ok, ok_or,
}
use codex_bridge.Common.Decimal.{parse_i64}
use codex_bridge.Json.{
  Value, num, int, str, get, get_str, get_or_null, as_array, is_object, is_string, object, set_key,
  value_eq, copy_keys, show_number,
}
use codex_bridge.Backend.{StartedThread, Turn, Thread}

abbrev set_field : String → Option String → Value → Value
set_field k none fields = fields
set_field k (some v) fields = set_key k (str v) fields

started_fields_of : Value → String → Value
started_fields_of value title =
    set_field "effort" (get_str "reasoningEffort" value)
      (set_field "model" (get_str "model" value) (object (("title", str title) ∷ [])))

unfoldable pub started_thread : Value → Result StartedThread
unfolding started_fields_of
started_thread value =
    and_ok (ok_or (get_str "threadId" value) "thread/start or thread/resume returned no threadId")
      λ id.
        and_ok (ok_or (get_str "title" value) "thread/start or thread/resume returned no title")
          λ title. ok (record { id = id; fields = started_fields_of value title })

unfoldable pub terminal_fields : Value → Value
terminal_fields turn = copy_keys true ("error" ∷ "durationMs" ∷ "reason" ∷ []) turn (object [])

unfoldable pub status_type : Value → String
status_type thread = unwrap_or (get_str "status" thread) "unknown"

turn_id_of_value : Value → Option String
turn_id_of_value (str id) = some id
turn_id_of_value (num n) = some (show_number n)
turn_id_of_value _ = none

unfoldable pub turn_id_of : Option Value → Option String
unfolding turn_id_of_value
turn_id_of none = none
turn_id_of (some v) = turn_id_of_value v

unfoldable pub turn_id_wire : String → Value
turn_id_wire turn_id = elim (parse_i64 turn_id) [ some n ↦ num (int n) | none ↦ str turn_id ]

unfoldable pub last_agent_message : List Value → String
last_agent_message turns = unwrap_or (and_then (last turns) (get_str "finalMessage")) ""

unfoldable pub normalize_turn : Value → Turn
unfolding turn_id_of terminal_fields
normalize_turn turn = record {
  id = turn_id_of (get "turnId" turn);
  status = get_or_null "status" turn;
  running = is_some_and (λ s. s == "running" || s == "inProgress") (get_str "status" turn);
  fields = terminal_fields turn;
}

unfoldable pub normalize_thread : String → Value → Thread
unfolding status_type last_agent_message normalize_turn
normalize_thread id thread =
    let turns = unwrap_or (and_then (get "turns" thread) as_array) [] in
    record {
      id = id;
      running = status_type thread == "running";
      status = get_or_null "status" thread;
      cwd = get_or_null "cwd" thread;
      model = get_or_null "model" thread;
      turns = map normalize_turn turns;
      final_message = last_agent_message turns;
    }

unfoldable pub thread_of : Value → Option String
thread_of params = get_str "threadId" params

unfoldable pub same_request_id : Value → Value → Bool
same_request_id expected actual = is_string expected && value_eq expected actual

-- The text blocks of `content`, joined.
join_text_blocks : List Value → String
join_text_blocks [] = ""
join_text_blocks (block ∷ blocks) =
    unwrap_or
      (if is_some_and (λ t. t == "text") (get_str "type" block) then get_str "text" block else none)
      ""
    ⧺ join_text_blocks blocks

abbrev non_empty : Option String → Option String
non_empty = keep_if (λ text. not (text == ""))

message_content : Value → Option String
unfolding join_text_blocks
message_content v = elim (and_then (get "content" v) as_array) [
  | some content ↦ non_empty (some (join_text_blocks content))
  | none ↦ non_empty (get_str "text" v)
]

unfoldable pub event_message : Value → Option String
unfolding message_content
event_message v = message_content (unwrap_or (keep_if is_object (get "message" v)) v)
