-- ===== src/Session/Handle/Queue.antt =====
-- The queue of events while src/core/session.rs handles one event.
use codex_bridge.Common.{ℕ, ◌≡◌, refl, arith}
use codex_bridge.Backend.{
  Backend, Event, ignore, closed, request, update, turn_completed, request_resolved, Request,
  WaitFlags,
}
use codex_bridge.Connection.{respond_result, respond_error}
use codex_bridge.Session.Handle.{Loop, handle, handle_request}

module _ {Run D : Type 0} (b : Backend Run D) (opts : WaitFlags) where
  request-events :
      (now : ℕ) (r : Request) (l : Loop D)
      → (handle_request b opts now r l).1.session.events ≡ l.session.events
  unfolding handle_request respond_result respond_error
  request-events now r l = ground arith

  -- An event leaves the queue as it is.
  pub handle-events :
      (now : ℕ) (ev : Event) (l : Loop D)
      → (handle b opts now ev l).1.session.events ≡ l.session.events
  unfolding handle
  handle-events now (request r) l = request-events now r _
  handle-events now ignore l = refl
  handle-events now (closed reason) l = refl
  handle-events now (update u) l = ground arith
  handle-events now (turn_completed c) l = refl
  handle-events now (request_resolved id log) l = ground arith
