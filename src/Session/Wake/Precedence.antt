-- ===== src/Session/Wake/Precedence.antt =====
-- Which source wakes the wait loop (`next_wake` of src/core/session.rs), for both policies.
use codex_bridge.Common.{ℕ, ◌≤◌, ◌<◌, ◌≡◌, ◌↔◌, true, false, Option, none, some, arith}
use codex_bridge.Rpc as rpc
use codex_bridge.Session.Wake.{event, reply, stall, timeout, Receiver, Deadlines, recv, next_wake}

-- With deadlines first an event is taken exactly when no deadline has passed, and of the deadlines
-- the timeout comes before the reply's, and that before the stall's.
pub next_wake_deadlines_first :
    (now : ℕ) (d : Deadlines) (r : Receiver) (e : Option rpc.Event)
    → ((next_wake true now d r ≡ some timeout) ↔ (d.timeout ≤ now))
      × ((next_wake true now d r ≡ some reply) ↔ ((now < d.timeout) × (d.reply ≤ now)))
      × ((next_wake true now d r ≡ some stall)
          ↔ ((now < d.timeout) × (now < d.reply) × (d.stall ≤ now)))
      × ((next_wake true now d r ≡ some (event e))
          ↔ ((now < d.timeout) × (now < d.reply) × (now < d.stall) × (recv r ≡ some e)))
unfolding next_wake
next_wake_deadlines_first now d r e = ground arith

-- With events first a queued event, or the end of the stream, is taken whatever has passed, and of the
-- deadlines the reply's comes before the stall's, and that before the timeout.
pub next_wake_events_first :
    (now : ℕ) (d : Deadlines) (r : Receiver) (e : Option rpc.Event)
    → ((next_wake false now d r ≡ some (event e)) ↔ (recv r ≡ some e))
      × ((next_wake false now d r ≡ some reply) ↔ ((recv r ≡ none) × (d.reply ≤ now)))
      × ((next_wake false now d r ≡ some stall)
          ↔ ((recv r ≡ none) × (now < d.reply) × (d.stall ≤ now)))
      × ((next_wake false now d r ≡ some timeout)
          ↔ ((recv r ≡ none) × (now < d.reply) × (now < d.stall) × (d.timeout ≤ now)))
unfolding next_wake
next_wake_events_first now d r e = ground arith
