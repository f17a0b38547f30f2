-- ===== src/Codex/Approvals.antt =====
-- src/backend/codex/approvals.rs: the response body for a bare decision.
pub mod Table
use codex_bridge.Common.{String, [], ◌∷◌, Result, ok, err, ◌⧺◌, ◌==◌, ◌||◌, if◌then◌else◌}
use codex_bridge.Common.Decimal.{ℤ, negsuc}
use codex_bridge.Json.{Value, str, object}

pub data Decision : Type 0 where
  accept accept_for_session decline : Decision

abbrev pub command_execution : String
command_execution = "item/commandExecution/requestApproval"

abbrev pub file_change : String
file_change = "item/fileChange/requestApproval"

abbrev pub tool_user_input : String
tool_user_input = "item/tool/requestUserInput"

abbrev pub mcp_elicitation : String
mcp_elicitation = "mcpServer/elicitation/request"

abbrev pub permissions : String
permissions = "item/permissions/requestApproval"

unfoldable pub decision_str : Decision → String
decision_str accept = "accept"
decision_str accept_for_session = "acceptForSession"
decision_str decline = "decline"

elicitation_response : Decision → Result Value
unfolding decision_str
elicitation_response accept_for_session =
    err
      (mcp_elicitation ⧺ " accepts only accept/decline/cancel; use --result-json for anything else")
elicitation_response decision = ok (object (("action", str (decision_str decision)) ∷ []))

unfoldable pub response_for : String → Decision → Result Value
unfolding elicitation_response
response_for method decision =
    if method == command_execution || method == file_change
    then ok (object (("decision", str (decision_str decision)) ∷ []))
    else if method == mcp_elicitation
    then elicitation_response decision
    else if method == tool_user_input
    then err (
        tool_user_input
        ⧺ " needs answers; reply with --result-json '{\"answers\":{\"<questionId>\":{\"answers\":[\"...\"]}}}'")
    else if method == permissions
    then err (
        permissions
        ⧺ " needs a granted permission profile; reply with --result-json '{\"permissions\":{...},\"scope\":\"turn\"}'")
    else err ("no --decision mapping for server request method `" ⧺ method ⧺ "`; use --result-json")

abbrev pub unattended_message : String
unattended_message =
    "agent-bridge is running this turn unattended: no human is available to approve or answer. Use your own judgment and continue with what you can do without this approval."

abbrev pub unattended_code : ℤ
unattended_code = negsuc 31999
