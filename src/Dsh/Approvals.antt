-- ===== src/Dsh/Approvals.antt =====
-- src/backend/dsh/approvals.rs: the response body for a one-time decision.
use codex_bridge.Common.{String, [], ◌∷◌, Result, ok, err, ◌⧺◌, ◌==◌, if◌then◌else◌}
use codex_bridge.Common.Decimal.{ℤ, negsuc}
use codex_bridge.Json.{Value, str, object}

pub data Decision : Type 0 where
  accept decline : Decision

abbrev pub approval : String
approval = "approval/request"

abbrev pub user_question : String
user_question = "userQuestion/request"

unfoldable pub decision_str : Decision → String
decision_str accept = "allowed-once"
decision_str decline = "rejected"

unfoldable pub response_for : String → Decision → Result Value
unfolding decision_str
response_for method decision =
    if method == approval
    then ok (object (("decision", str (decision_str decision)) ∷ []))
    else if method == user_question
    then err
        (user_question ⧺ " needs answers; reply with --result-json containing an answers array")
    else err ("no --decision mapping for server request method `" ⧺ method ⧺ "`; use --result-json")

abbrev pub unattended_message : String
unattended_message =
    "agent-bridge is running this turn unattended: no human is available to approve or answer. Use your own judgment and continue with what you can do without this approval."

abbrev pub unattended_code : ℤ
unattended_code = negsuc 31999
