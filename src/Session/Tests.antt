-- ===== src/Session/Tests.antt =====
-- The session's theorems at concrete events, over dsh and Codex.
use codex_bridge.Common.{
  Bool, ◌≡◌, ◌↔◌, ◌⊎◌, refl, ◌<◌, ◌≤◌, true, false, String, none, some, [], ◌∷◌, ok,
}
use codex_bridge.Json.{null}
use codex_bridge.Rpc as rpc
use codex_bridge.Rpc.{server_request}
use codex_bridge.Backend.{Thread, Turn, Event, Request, request, closed}
use codex_bridge.Dsh.{dsh}
use codex_bridge.Dsh.Approvals.{Decision}
use codex_bridge.Session.Verbs.{active_turn}
use codex_bridge.Session.Verbs.ActiveTurn.{IsLast, active_turn-ok_iff}
use codex_bridge.Samples.{flags, request_of, waiting_loop}
use codex_bridge.Session.Wake.{Deadlines, Receiver, event, timeout, reply, stall, recv, next_wake}
use codex_bridge.Session.Wake.Precedence.{next_wake_deadlines_first, next_wake_events_first}
use codex_bridge.Session.Handle.{Loop, exit, handle, exit_error}
use codex_bridge.Session.Handle.Frames.{IsAnswer, handle_frames}
use codex_bridge.Session.Handle.Exits.{Ends, handle-Ends_iff}
use codex_bridge.Session.Handle.Logs.{Logged, handle-Logged}

abbrev passed : Deadlines
passed = record { stall = 500; timeout = 900; reply = 800 }

abbrev one_event : Receiver
one_event = record { queue = rpc.closed "x" ∷ []; ended = false }

next_wake_deadlines_first_example :
    ((next_wake true 1000 passed one_event ≡ some timeout) ↔ (900 ≤ 1000))
    × ((next_wake true 1000 passed one_event ≡ some reply) ↔ ((1000 < 900) × (800 ≤ 1000)))
    × ((next_wake true 1000 passed one_event ≡ some stall)
        ↔ ((1000 < 900) × (1000 < 800) × (500 ≤ 1000)))
    × ((next_wake true 1000 passed one_event ≡ some (event none))
        ↔ ((1000 < 900) × (1000 < 800) × (1000 < 500) × (recv one_event ≡ some none)))
next_wake_deadlines_first_example = next_wake_deadlines_first 1000 passed one_event none

next_wake_events_first_example :
    ((next_wake false 1000 passed one_event ≡ some (event (some (rpc.closed "x"))))
      ↔ (recv one_event ≡ some (some (rpc.closed "x"))))
    × ((next_wake false 1000 passed one_event ≡ some reply)
        ↔ ((recv one_event ≡ none) × (800 ≤ 1000)))
    × ((next_wake false 1000 passed one_event ≡ some stall)
        ↔ ((recv one_event ≡ none) × (1000 < 800) × (500 ≤ 1000)))
    × ((next_wake false 1000 passed one_event ≡ some timeout)
        ↔ ((recv one_event ≡ none) × (1000 < 800) × (1000 < 500) × (900 ≤ 1000)))
next_wake_events_first_example =
    next_wake_events_first 1000 passed one_event (some (rpc.closed "x"))

abbrev asked : Event
asked = request (request_of "r1")

abbrev loop : Loop Decision
loop = waiting_loop Decision 0

handle_frames_example :
    ((handle dsh flags 2000 asked loop).1.session.world.sent ≡ [])
    ⊎ ((r : Request) × (asked ≡ request r)
        × IsAnswer dsh flags r loop (handle dsh flags 2000 asked loop).1)
handle_frames_example = handle_frames dsh flags 2000 asked loop

handle-Ends_iff_example :
    ((handle dsh flags 2000 (closed "gone") loop).0 ≡ ok (exit exit_error))
    ↔ Ends dsh flags loop (closed "gone") exit_error
handle-Ends_iff_example = handle-Ends_iff dsh flags 2000 (closed "gone") loop exit_error

handle-Logged_example : Logged dsh loop (handle dsh flags 2000 asked loop).1 []
handle-Logged_example = handle-Logged dsh flags 2000 asked loop [] refl refl

abbrev turn_of : String → Bool → Turn
turn_of id running = record { id = some id; status = null; running = running; fields = null }

abbrev thread : Thread
thread = record {
  id = "t1";
  running = true;
  status = null;
  cwd = null;
  model = null;
  turns = turn_of "5" true ∷ turn_of "6" true ∷ turn_of "7" false ∷ [];
  final_message = "";
}

active_turn-ok_iff_example :
    (active_turn thread "t1" "steer" ≡ ok "6")
    ↔ ((t : Turn) × IsLast t thread.turns × (t.id ≡ some "6"))
active_turn-ok_iff_example = active_turn-ok_iff thread "t1" "steer" "6"
