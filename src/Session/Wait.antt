-- ===== src/Session/Wait.antt =====
-- `wait_loop` of src/core/session.rs over a schedule of polls. It is still waiting when the schedule
-- ends. The deadlines are taken when the loop goes round, and stay while `next_wake` waits.
mod Tests
pub mod Rules
pub mod Replies
pub mod Ends
pub mod Early
pub mod Lost
pub mod Overflow
use codex_bridge.Common.{
  ℕ, ◌+◌, String, Option, none, some, List, [], ◌∷◌, ◌⧺◌, Act, Result, ok, err, is_some, not, Bool,
  true, false, ◌&&◌, ◌||◌, if◌then◌else◌,
}
use codex_bridge.Common.Decimal.{pos}
use codex_bridge.Json.{Value, null, str, num, int, object, opt_str}
use codex_bridge.Rpc as rpc
use codex_bridge.Backend.{Backend, Event, WaitFlags}
use codex_bridge.Session.Wake.{
  Poll, Deadlines, Wake, event, reply, stall, timeout, never, deadline, overflow, enqueue,
  after_recv, next_wake,
}
use codex_bridge.Session.Handle.{
  Session, Loop, PendingReply, Step, continue, exit, exit_error, exit_stalled, event_context,
  on_world, emit_event, error_event, handle,
}

pub data Outcome : Type 0 where
  waiting : Outcome
  exited : ℕ → Outcome
  failed : String → Outcome
  panicked : Outcome

abbrev pub secs_value : ℕ → Value
secs_value n = num (int (pos n))

abbrev pub stalled_event : WaitFlags → Session → Value
stalled_event opts s = object (
    ("event", str "stalled")
    ∷ ("threadId", str s.thread_id)
    ∷ ("turnId", opt_str s.turn_id)
    ∷ ("stallSecs", secs_value opts.stall_secs)
    ∷ ("finalMessage", str s.final_message)
    ∷ [])

abbrev pub timeout_event : WaitFlags → Session → Value
timeout_event opts s = object (
    ("event", str "timeout")
    ∷ ("threadId", str s.thread_id)
    ∷ ("turnId", opt_str s.turn_id)
    ∷ ("timeoutSecs", secs_value opts.timeout_secs)
    ∷ ("finalMessage", str s.final_message)
    ∷ [])

module _ {Run D : Type 0} (b : Backend Run D) where
  unfoldable pub deadlines_at : WaitFlags → ℕ → ℕ → Loop D → Deadlines
  unfolding deadline
  deadlines_at opts started now l = record {
    stall = deadline now l.last_item opts.stall_secs;
    timeout = deadline now started opts.timeout_secs;
    reply = elim l.reply [ some r ↦ r.deadline | none ↦ now + never ];
  }

  -- One of the sums of `deadlines_at` panics; the reply's deadline is not a sum of this turn.
  unfoldable pub overflows : WaitFlags → ℕ → ℕ → Loop D → Bool
  unfolding deadlines_at
  overflows opts started now l =
      let d = deadlines_at opts started now l in
      let panics = overflow l.session.world.outside.windows in
      panics d.stall || (panics d.timeout || (not (is_some l.reply) && panics d.reply))

  missing_id : Option (PendingReply D) → Value
  missing_id none = null
  missing_id (some r) = r.id

  abbrev not_redelivered : Session → Value → Value
  not_redelivered s id = error_event (
      "server request "
      ⧺ s.world.outside.display id
      ⧺ " was not re-delivered within 10s of resuming thread "
      ⧺ s.thread_id)

  abbrev pub pop_event : Loop D → Loop D
  pop_event l = record l {
    session = record l.session {
      events = record l.session.events { queue = after_recv l.session.events.queue };
    };
  }

  pub handle_normalized : WaitFlags → ℕ → Result Event → Act (Loop D) Step
  unfolding handle
  handle_normalized opts now (err e) l = (err e, l)
  handle_normalized opts now (ok ev) l = handle b opts now ev l

  -- What `normalize` yields in this state, and the state that it leaves.
  abbrev pub normalize_result : rpc.Event → Loop D → Result Event
  normalize_result raw l =
      (b.normalize raw (event_context l.session (is_some l.reply)) l.session.world).0

  abbrev pub normalize_loop : rpc.Event → Loop D → Loop D
  normalize_loop raw l = record l {
    session = record l.session {
      world = (b.normalize raw (event_context l.session (is_some l.reply)) l.session.world).1;
    };
  }

  -- `normalize`, then `handle`.
  unfoldable pub handle_raw : WaitFlags → ℕ → rpc.Event → Act (Loop D) Step
  unfolding handle_normalized
  handle_raw opts now raw l =
      handle_normalized opts now (normalize_result raw l) (normalize_loop raw l)

  on_stall : WaitFlags → ℕ → Loop D → Step × Loop D
  unfolding emit_event
  on_stall opts now l =
      let s = emit_event (stalled_event opts l.session) l.session in
      if opts.follow
      then (continue, record l { session = s; last_item = now })
      else (exit exit_stalled, record l { session = s })

  -- The `match` on what woke the loop.
  unfoldable pub on_wake : WaitFlags → ℕ → Wake → Act (Loop D) Step
  unfolding emit_event missing_id handle_raw on_stall
  on_wake opts now (event (some raw)) l = handle_raw opts now raw (pop_event l)
  on_wake opts now (event none) l = (
    ok (exit exit_error),
    record l { session = emit_event (error_event "event stream ended unexpectedly") l.session },
  )
  on_wake opts now reply l = (
    ok (exit exit_error),
    record l { session = emit_event (not_redelivered l.session (missing_id l.reply)) l.session },
  )
  on_wake opts now stall l = let (step, l') = on_stall opts now l in (ok step, l')
  on_wake opts now timeout l = (
    ok (exit exit_stalled),
    record l { session = emit_event (timeout_event opts l.session) l.session },
  )

  abbrev pub take_poll : Poll → Loop D → Loop D
  take_poll p l = record l { session = record l.session { events = enqueue p l.session.events } }

  -- What one poll comes to: nothing, or a step of the loop.
  unfoldable pub poll_step : WaitFlags → Deadlines → Poll → Loop D → Option (Result Step × Loop D)
  unfolding on_wake next_wake enqueue
  poll_step opts d p l =
      let l' = take_poll p l in
      elim (next_wake b.wait_policy.deadlines_first p.now d l'.session.events) [
        | none ↦ none
        | some wake ↦ some (on_wake opts p.now wake l')
      ]

  unfoldable pub wait_polls : WaitFlags → ℕ → Deadlines → List Poll → Loop D → Outcome × Loop D
  unfolding poll_step deadlines_at overflows
  wait_polls opts started d [] l = (waiting, l)
  wait_polls opts started d (p ∷ ps) l = elim (poll_step opts d p l) [
    | none ↦ wait_polls opts started d ps (take_poll p l)
    | some (r, l') ↦ elim r [
      | err e ↦ (failed e, l')
      | ok step ↦ elim step [
        | exit code ↦ (exited code, l')
        | continue ↦ elim (overflows opts started p.now l') [
          | true ↦ (panicked, l')
          | false ↦ wait_polls opts started (deadlines_at opts started p.now l') ps l'
        ]
      ]
    ]
  ]

  abbrev pub start_loop : ℕ → Option (PendingReply D) → Session → Loop D
  start_loop now pending s = record { session = s; reply = pending; last_item = now }

  -- `wait_loop` begins at `now`.
  unfoldable pub wait_loop :
      WaitFlags → ℕ → Option (PendingReply D) → List Poll → Session → Outcome × Loop D
  unfolding wait_polls deadlines_at overflows
  wait_loop opts now pending polls s =
      let l = start_loop now pending s in
      elim (overflows opts now now l) [
        | true ↦ (panicked, l)
        | false ↦ wait_polls opts now (deadlines_at opts now now l) polls l
      ]
