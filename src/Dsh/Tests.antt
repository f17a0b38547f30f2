-- ===== src/Dsh/Tests.antt =====
-- The theorems on src/backend/dsh at concrete events, frames and logs.
use codex_bridge.Common.{
  ◌≡◌, ◌+◌, ◌↔◌, ◌⊎◌, refl, not, false, true, String, Option, none, some, [], ◌∷◌, arith, Result,
  ok, err, ◌==◌, ◌⧺◌, is_some_and,
}
use codex_bridge.Common.Decimal.{pos, negsuc}
use codex_bridge.Json.{Value, num, int, str, object, get}
use codex_bridge.Rpc as rpc
use codex_bridge.Rpc.{notification}
use codex_bridge.Backend.{Completion, turn_completed}
use codex_bridge.Samples.{outside, machine, codec, context, params, response_frame}
use codex_bridge.Dsh.Wire.{decode}
use codex_bridge.Dsh.Wire.Envelope.{IsEnvelope, decode-ok_iff}
use codex_bridge.Dsh.Messages.{turn_id_of, turn_id_wire, terminal_fields}
use codex_bridge.Dsh.Normalize.{normalize_event}
use codex_bridge.Dsh.Normalize.Laws.{Report, normalize_event-Report}
use codex_bridge.Dsh.Launch.{ui_url_wait_ms, wait_for_new_ui_url}
use codex_bridge.Dsh.Launch.Waits.{IsFound, wait_for_new_ui_url-ends}
use codex_bridge.Dsh.Ui.{last_complete_ui_url, first_complete_ui_url}
use codex_bridge.Dsh.Ui.Partial.{complete_ui_url-append}

decode-ok_iff_example :
    (decode codec "response" ≡ ok response_frame)
    ↔ ((codec.parse "response" ≡ ok response_frame) × IsEnvelope response_frame)
decode-ok_iff_example = decode-ok_iff codec "response" response_frame

-- The frame is indeed accepted.
response_decodes : decode codec "response" ≡ ok response_frame
unfolding decode object codex_bridge.Json.lookup codex_bridge.Json.insert
response_decodes = refl

negative_turn : turn_id_of (some (num (int (negsuc 4)))) ≡ some "-5"
unfolding turn_id_of codex_bridge.Common.Decimal.show_ℤ
negative_turn = refl

abbrev completion : Completion
completion = record {
  turn_id = some "7";
  status = "completed";
  final_message = none;
  fields = terminal_fields params;
}

abbrev ended : rpc.Event
ended = notification "turn/completed" params

ended_completes : normalize_event ended context ≡ ok (turn_completed completion)
unfolding normalize_event codex_bridge.Dsh.Messages.thread_of object codex_bridge.Json.lookup
    codex_bridge.Json.insert turn_id_of codex_bridge.Common.Decimal.show_ℤ
ended_completes = refl

normalize_event-Report_example : Report ended context (turn_completed completion)
normalize_event-Report_example =
    normalize_event-Report ended context (turn_completed completion) ended_completes

abbrev log : String
log = "dsh web: http://127.0.0.1:1/\ndsh web: http://127.0.0.1:2/\n"

complete_ui_url-append_example :
    (last_complete_ui_url (log ⧺ "dsh") ≡ last_complete_ui_url log)
    × (first_complete_ui_url (log ⧺ "dsh") ≡ first_complete_ui_url log)
complete_ui_url-append_example = complete_ui_url-append log "dsh" (refl, (refl, (refl, tt)))

last_url : last_complete_ui_url log ≡ some "http://127.0.0.1:2/"
unfolding last_complete_ui_url
last_url = refl

wait_for_new_ui_url-ends_example :
    IsFound outside
      (ui_url_wait_ms outside)
      (1000 + ui_url_wait_ms outside)
      0
      (wait_for_new_ui_url outside 0 machine)
wait_for_new_ui_url-ends_example = wait_for_new_ui_url-ends outside 0 machine
