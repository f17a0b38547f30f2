-- ===== src/Session/Wait/Tests.antt =====
-- The wait loop's theorems over dsh and Codex, at the schedules of Samples.antt.
use codex_bridge.Common.{◌≡◌, ◌≢◌, refl, true, false, none, some, [], ◌∷◌, arith, All}
use codex_bridge.Json.{Value, null, str}
use codex_bridge.Rpc as rpc
use codex_bridge.Rpc.{server_request}
use codex_bridge.Connection.{World, result_frame}
use codex_bridge.Dsh.{dsh, DshRun}
use codex_bridge.Dsh.Approvals.{Decision}
use codex_bridge.Dsh.Normalize.{normalize}
use codex_bridge.Samples.{codec, polls, early_polls, session, flags, pending_reply}
use codex_bridge.Session.Wake.{
  Poll, Deadlines, Receiver, Wake, event, timeout, reply, stall, recv, next_wake, second,
}
use codex_bridge.Session.Handle.{
  Session, Loop, Step, continue, exit, handle, response_body, exit_error,
}
use codex_bridge.Codex.{codex}
use codex_bridge.Codex.Approvals as codex_approvals
use codex_bridge.Codex.Normalize.Laws.{is_response, normalize_responses}
use codex_bridge.Dsh.Messages.{same_request_id}
use codex_bridge.Session.Wait as waits
use codex_bridge.Session.Wait.{waiting, wait_loop}
use codex_bridge.Session.Wait.Replies.{IsQuiet, AtMostOnce, wait_loop-AtMostOnce}
use codex_bridge.Dsh.Wire.{wire}
use codex_bridge.Session.Wait.Lost.{TellsEnd, wait_loop-reader}
use codex_bridge.Session.Wait.Early.{NotStalled, IsEarly, wait_loop-NotStalled}
use codex_bridge.Session.Wait.Ends.{wait_loop-ends}

codex-IsQuiet : IsQuiet (codex false) is_response
unfolding codex
codex-IsQuiet raw c w = normalize_responses raw c w

abbrev outcome : waits.Outcome × Loop Decision
outcome = wait_loop dsh flags 1000 (some (pending_reply Decision)) polls (session 0)

abbrev codex_outcome : waits.Outcome × Loop codex_approvals.Decision
codex_outcome =
    wait_loop (codex false) flags 1000 (some (pending_reply codex_approvals.Decision)) polls
      (session 0)

wait_loop-AtMostOnce_example :
    AtMostOnce
      (codex false)
      is_response
      []
      (some (pending_reply codex_approvals.Decision))
      codex_outcome.1
wait_loop-AtMostOnce_example =
    wait_loop-AtMostOnce (codex false) is_response codex-IsQuiet flags refl 1000
      (some (pending_reply codex_approvals.Decision)) polls (session 0)

-- Over dsh, the same run writes its one frame.
run_answers : outcome.1.session.world.sent ≡ result_frame (str "r1") (str "yes") ∷ []
unfolding wait_loop dsh normalize same_request_id codex_bridge.Dsh.Messages.thread_of
    codex_bridge.Json.object codex_bridge.Json.lookup codex_bridge.Json.insert
    codex_bridge.Session.Handle.event_context codex_bridge.Json.value_eq
    codex_bridge.Connection.respond_result
run_answers = refl

deadlines_first : dsh.wait_policy.deadlines_first ≡ true
unfolding dsh
deadlines_first = refl

wait_loop-ends_example : outcome.0 ≢ waiting
wait_loop-ends_example =
    wait_loop-ends dsh flags 1000 (some (pending_reply Decision)) polls (session 0) deadlines_first
      (omega arith) refl

early : All (IsEarly dsh flags 1000) early_polls
unfolding codex_bridge.Session.Wake.deadline
early = ((omega arith, omega arith, omega arith), tt)

wait_loop-NotStalled_example :
    NotStalled dsh flags (wait_loop dsh flags 1000 none early_polls (session 0)).0
wait_loop-NotStalled_example =
    wait_loop-NotStalled dsh flags 1000 none early_polls (session 0) early

-- Both backends make the end of the session of the end of the connection.
codex-TellsEnd : TellsEnd (codex false) flags
unfolding codex codex_bridge.Codex.Normalize.normalize
codex-TellsEnd reason c w = refl

dsh-TellsEnd : TellsEnd dsh flags
unfolding dsh normalize
dsh-TellsEnd reason c w = refl

abbrev fresh_hub : rpc.Hub
fresh_hub = record { pending = []; delivered = []; events = [] }

abbrev lost : Session
lost = record (session 0) {
  events = record { queue = (rpc.reader (wire codec) [] fresh_hub).events; ended = false };
}

wait_loop-reader_example :
    (wait_loop dsh flags 1000 (some (pending_reply Decision)) polls lost).0 ≢ waiting
unfolding rpc.reader
wait_loop-reader_example =
    wait_loop-reader dsh flags (wire codec) [] fresh_hub 1000 (some (pending_reply Decision)) polls
      lost refl dsh-TellsEnd tt refl (omega arith)
