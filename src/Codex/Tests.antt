-- ===== src/Codex/Tests.antt =====
-- The theorems on src/backend/codex at concrete events.
use codex_bridge.Common.{
  ℕ, suc, ◌≡◌, ◌↔◌, refl, not, String, true, false, none, some, [], ◌∷◌, ok, ◌==◌, is_some_and,
}
use codex_bridge.Common.Decimal.{pos}
use codex_bridge.Json.{Value, num, int, str, object, get_str, get_or_null}
use codex_bridge.Rpc as rpc
use codex_bridge.Rpc.{notification}
use codex_bridge.Backend.{Completion, turn_completed}
use codex_bridge.Samples.{world, context}
use codex_bridge.Codex.Approvals.{response_for, mcp_elicitation, accept}
use codex_bridge.Codex.Approvals.Table.{Answers, response_for-ok_iff}
use codex_bridge.Codex.Pane.{rename}
use codex_bridge.Codex.Messages.SameId.{same_request_id_iff}
use codex_bridge.Codex.Pane.Attempts.{IsAttempted, rename-IsAttempted}
use codex_bridge.Codex.Messages.{same_request_id, thread_of, terminal_fields}
use codex_bridge.Codex.Normalize.{normalize}
use codex_bridge.Codex.Normalize.Laws.{
  OnlyUnsubscribes, TellsStart, normalize_unsubscribes, normalize-completed,
}

abbrev started : rpc.Event
started = notification "item/completed" (
    object (
      (
        "item",
        object (
            ("type", str "subAgentActivity")
            ∷ ("kind", str "started")
            ∷ ("agentThreadId", str "sub")
            ∷ []),
      )
      ∷ ("threadId", str "t1")
      ∷ []))

normalize_unsubscribes_example :
    OnlyUnsubscribes (TellsStart started context) world (normalize started context world).1
normalize_unsubscribes_example = normalize_unsubscribes started context world

abbrev turn : Value
turn = object (("id", str "7") ∷ ("status", str "completed") ∷ [])

abbrev ended : rpc.Event
ended = notification "turn/completed" (object (("turn", turn) ∷ ("threadId", str "t1") ∷ []))

abbrev completion : Completion
completion = record {
  turn_id = some "7";
  status = "completed";
  final_message = none;
  fields = terminal_fields turn;
}

ended_completes : (normalize ended context world).0 ≡ ok (turn_completed completion)
unfolding normalize thread_of object codex_bridge.Json.lookup codex_bridge.Json.insert
ended_completes = refl

normalize-completed_example :
    (params : Value) × (ended ≡ notification "turn/completed" params)
    × (completion.turn_id ≡ get_str "id" (get_or_null "turn" params))
    × ((completion.status == "inProgress") ≡ false)
    × (is_some_and (λ thread. not (thread == context.thread_id)) (thread_of params) ≡ false)
normalize-completed_example = normalize-completed ended context world completion ended_completes

rename-IsAttempted_example :
    (k : ℕ) × IsAttempted world 11 (suc k) k (rename "herdr" "p1" "codex-t1" world)
rename-IsAttempted_example = rename-IsAttempted "herdr" "p1" "codex-t1" world

response_for-ok_iff_example :
    (response_for mcp_elicitation accept ≡ ok (object (("action", str "accept") ∷ [])))
    ↔ Answers mcp_elicitation accept (object (("action", str "accept") ∷ []))
response_for-ok_iff_example =
    response_for-ok_iff mcp_elicitation accept (object (("action", str "accept") ∷ []))

-- An approval's id comes as a number, and back as a text.
abbrev seven : String
seven = "7"

same_request_id_iff_example :
    (same_request_id (num (int (pos 7))) (str seven) ≡ true) ↔ (seven ≡ seven)
unfolding codex_bridge.Codex.Wire.response_key codex_bridge.Codex.Wire.key_of
    codex_bridge.Common.Decimal.show_ℤ codex_bridge.Common.Decimal.show_ℕ
same_request_id_iff_example =
    same_request_id_iff (num (int (pos 7))) (str seven) seven seven refl refl
