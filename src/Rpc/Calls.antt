-- ===== src/Rpc/Calls.antt =====
-- The calls of src/backend/rpc.rs that wait at the same time: the id, the key and the sender that
-- `Connection::request` leaves in the table before it writes, between the frames that the reader
-- dispatches. A sender is named by the number of ids that were taken before its own.
pub mod Fate
pub mod Table
pub mod Steps
pub mod Sound
pub mod Paired
pub mod Order
mod Tests
use codex_bridge.Common.{
  ℕ, zero, suc, ◌+◌, ◌≡◌, ◌<◌, String, Option, none, some, List, [], ◌∷◌, and_then, nat_eq,
  if◌then◌else◌,
}
use codex_bridge.Common.Decimal.{ℤ, pos, i64_suc, i64_half}
use codex_bridge.Json.{Value}
use codex_bridge.Rpc.{Protocol, Hub, Outcome, insert_waiter, dispatch, shut}

-- What the connection and its reader share.
pub record Shared : Type 0 where
  pub next_id : ℤ
  pub taken : ℕ
  pub hub : Hub

-- `connect`
abbrev pub connected : Shared
connected = record {
  next_id = pos 1;
  taken = 0;
  hub = record { pending = []; delivered = []; events = [] };
}

-- fetch_add on the counter
unfoldable pub take : Shared → Shared
unfolding i64_suc
take s = record s { next_id = i64_suc s.next_id; taken = suc s.taken }

pub enqueue : String → Shared → Shared
unfolding insert_waiter take
enqueue key s =
    let s' = take s in
    record s' { hub = record s.hub { pending = insert_waiter key s.taken s.hub.pending } }

-- The first half of `request`; without a key the `expect` panics.
unfoldable pub call : Protocol → Shared → Option Shared
unfolding enqueue
call p s = elim (p.response_key (p.next_id s.next_id)) [
  | none ↦ none
  | some key ↦ some (enqueue key s)
]

-- `called` is a request, `unheard` one whose response nobody waits for.
pub data Step : Type 0 where
  called unheard : Step
  arrived : Value → Step
  ended : String → Step

unfoldable pub step : Protocol → Step → Shared → Option Shared
unfolding call take dispatch shut
step p called s = call p s
step p unheard s = some (take s)
step p (arrived msg) s = some (record s { hub = dispatch p msg s.hub })
step p (ended reason) s = some (record s { hub = shut reason s.hub })

unfoldable pub run_steps : Protocol → List Step → Shared → Option Shared
unfolding step
run_steps p [] s = some s
run_steps p (t ∷ ts) s = and_then (step p t s) (run_steps p ts)

-- What the sender `w` was given, newest first.
unfoldable pub outcomes_of : ℕ → List (ℕ × Outcome) → List Outcome
outcomes_of w [] = []
outcomes_of w ((v, o) ∷ ds) = let rest = outcomes_of w ds in if nat_eq v w then o ∷ rest else rest
