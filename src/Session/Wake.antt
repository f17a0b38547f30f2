-- ===== src/Session/Wake.antt =====
-- Deadlines and scheduling in src/core/session.rs: `deadline`, `Wake` and `next_wake`. Instants are
-- milliseconds. A poll is one turn of the event loop: the clock, the events that arrived since the
-- last one, and whether the connection has dropped its sender.
pub mod Precedence
use codex_bridge.Common.{
  ℕ, ◌+◌, ◌*◌, ◌^◌, Bool, true, false, ◌||◌, Option, none, some, List, [], ◌∷◌, ◌++◌, nat_eq, leb,
  if◌then◌else◌,
}
use codex_bridge.Rpc as rpc

abbrev pub second : ℕ
second = 1000

-- 365 days
abbrev pub never : ℕ
never = 365 * 24 * 3600 * second

abbrev pub reply_redelivery_secs : ℕ
reply_redelivery_secs = 10

unfoldable pub deadline : ℕ → ℕ → ℕ → ℕ
deadline now from secs = if nat_eq secs 0 then now + never else from + secs * second

-- The first instant, in milliseconds, that `Instant` does not hold: its seconds are an i64 on Unix, a u64 on Windows.
abbrev pub instant_end : Bool → ℕ
instant_end true = 2 ^ 64 * second
instant_end false = 2 ^ 63 * second

-- Whether the sum of an instant and a duration panics.
abbrev pub overflow : Bool → ℕ → Bool
overflow windows sum = leb (instant_end windows) sum

pub data Wake : Type 0 where
  event : Option rpc.Event → Wake
  reply stall timeout : Wake

pub record Poll : Type 0 where
  pub now : ℕ
  pub arrived : List rpc.Event
  pub ended : Bool

-- UnboundedReceiver
pub record Receiver : Type 0 where
  pub queue : List rpc.Event
  pub ended : Bool

pub record Deadlines : Type 0 where
  pub stall : ℕ
  pub timeout : ℕ
  pub reply : ℕ

unfoldable pub enqueue : Poll → Receiver → Receiver
enqueue p r = record { queue = r.queue ++ p.arrived; ended = r.ended || p.ended }

-- What `recv` yields at once, if it does not wait, and what it leaves in the queue.
abbrev pub recv : Receiver → Option (Option rpc.Event)
recv r = elim r.queue [ e ∷ rest ↦ some (some e) | [] ↦ if r.ended then some none else none ]

abbrev pub after_recv : List rpc.Event → List rpc.Event
after_recv [] = []
after_recv (e ∷ rest) = rest

abbrev event_wake : Option (Option rpc.Event) → Option Wake
event_wake none = none
event_wake (some e) = some (event e)

-- `select!` with `biased`: the first branch that is ready; `none` when none is.
unfoldable pub next_wake : Bool → ℕ → Deadlines → Receiver → Option Wake
next_wake true now d r =
    if leb d.timeout now
    then some timeout
    else if leb d.reply now
    then some reply
    else if leb d.stall now
    then some stall
    else event_wake (recv r)
next_wake false now d r = elim (recv r) [
  | some e ↦ some (event e)
  | none ↦
      if leb d.reply now
      then some reply
      else if leb d.stall now
      then some stall
      else if leb d.timeout now
      then some timeout
      else none
]
