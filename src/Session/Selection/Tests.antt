-- ===== src/Session/Selection/Tests.antt =====
-- The window's theorems over dsh, at the schedules of Samples.antt.
use codex_bridge.Common.{
  Bool, filter, ◌≡◌, ◌↔◌, refl, true, false, String, none, List, [], ◌∷◌, arith, ok, any,
}
use codex_bridge.Json.{Value, str}
use codex_bridge.Rpc as rpc
use codex_bridge.Rpc.{server_request}
use codex_bridge.Dsh.{dsh}
use codex_bridge.Dsh.Approvals.{Decision}
use codex_bridge.Dsh.Normalize.{normalize}
use codex_bridge.Samples.{polls, early_polls, wire_request, session, flags, payload}
use codex_bridge.Session.Wait.Replies.{IsQuiet}
use codex_bridge.Session.Selection.{Picked, window, pick_queued, only_request}
use codex_bridge.Session.Selection.Window.{
  IsUnfinished, Distinct, only_request_iff, pick_queued-Distinct, window_silent,
}
use codex_bridge.Session.Selection.Answer.{OneAnswer, window-OneAnswer}

abbrev every_frame : Value → Bool
every_frame frame = true

-- Dsh writes nothing while it reads, and Codex no response.
dsh-IsQuiet : IsQuiet dsh every_frame
unfolding dsh normalize
dsh-IsQuiet raw c w = refl

abbrev one_request : List (Value × String)
one_request = (str "r1", "approval/request") ∷ []

only_request_iff_example :
    (only_request dsh (session 0) one_request [] ≡ ok (str "r1", "approval/request"))
    ↔ ((one_request ≡ one_request) × (any (λ seen. dsh.same_request_id seen (str "r1")) [] ≡ false))
only_request_iff_example =
    only_request_iff dsh (session 0) one_request [] (str "r1") "approval/request"

abbrev nothing_picked : Picked Decision
nothing_picked = record {
  loop = record { session = session 0; reply = none; last_item = 1000 };
  requests = [];
  notifications = [];
  resolved = [];
}

abbrev twice : List rpc.Event
twice = wire_request "r1" ∷ wire_request "r1" ∷ wire_request "r2" ∷ []

pick_queued-Distinct_example :
    Distinct dsh (pick_queued dsh flags 2000 twice nothing_picked).1.requests
pick_queued-Distinct_example = pick_queued-Distinct dsh flags 2000 twice nothing_picked tt

window_silent_example :
    IsUnfinished dsh (window dsh flags 11000 (payload Decision) early_polls nothing_picked).0
    × (filter every_frame
          (window dsh flags 11000
            (payload Decision)
            early_polls
            nothing_picked).1.session.world.sent
        ≡ [])
window_silent_example =
    window_silent dsh every_frame flags 11000 (payload Decision) early_polls nothing_picked
      dsh-IsQuiet (omega arith, tt)

window-OneAnswer_example :
    OneAnswer dsh every_frame dsh-IsQuiet flags refl polls nothing_picked (payload Decision) [] (
      filter every_frame
        (window dsh flags 11000 (payload Decision) polls nothing_picked).1.session.world.sent)
window-OneAnswer_example =
    window-OneAnswer dsh every_frame dsh-IsQuiet flags refl 11000 (payload Decision) polls
      nothing_picked
