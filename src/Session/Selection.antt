-- ===== src/Session/Selection.antt =====
-- `reply_to_only_request` of src/core/session.rs: ten seconds of collecting the requests that the
-- server delivers again, then the answer to the only one, then the wait.
mod Tests
pub mod Window
pub mod Codes
pub mod Answer
use codex_bridge.Common.{
  ℕ, ◌+◌, ◌*◌, Bool, true, false, not, String, none, List, [], ◌∷◌, ◌++◌, ◌⧺◌, ◌==◌, Act, Result,
  ok, err, any, length, is_some_and, leb, if◌then◌else◌,
}
use codex_bridge.Common.Decimal.{show_ℕ}
use codex_bridge.Json.{Value}
use codex_bridge.Rpc as rpc
use codex_bridge.Backend.{
  Backend, Event, ignore, closed, request, update, turn_completed, request_resolved, WaitFlags,
  Request,
}
use codex_bridge.Session.Wake.{Poll, second, enqueue, reply_redelivery_secs}
use codex_bridge.Session.Handle.{
  Session, Loop, ReplyPayload, Step, continue, exit, event_context, on_world, handle,
  answer_request,
}
use codex_bridge.Session.Wait.{Outcome, waiting, exited, failed, wait_loop, handle_raw}

-- The requests with their methods, the deferred notifications and the resolved ids, oldest first.
pub record Picked (D : Type 0) : Type 0 where
  pub loop : Loop D
  pub requests : List (Value × String)
  pub notifications : List rpc.Event
  pub resolved : List Value

module _ {Run D : Type 0} (b : Backend Run D) where
  abbrev pub is_seen : Value → List (Value × String) → Bool
  is_seen id requests = any (λ r. b.same_request_id r.0 id) requests

  -- A request of another thread, or one that was seen, is passed over.
  unfoldable pub pick_request : Request → Picked D → Picked D
  pick_request r p =
      if is_some_and (λ t. not (t == p.loop.session.thread_id)) r.thread_id
      then p
      else if is_seen r.id p.requests
      then p
      else record p { requests = p.requests ++ (r.id, r.method) ∷ [] }

  -- The other events go to `handle`; the step that it asks for is dropped.
  pick_other : WaitFlags → ℕ → Event → Act (Picked D) Unit
  unfolding handle
  pick_other opts now ev p =
      let (r, l) = handle b opts now ev (record p.loop { reply = none }) in
      elim r [ ok _ ↦ (ok tt, record p { loop = l }) | err e ↦ (err e, record p { loop = l }) ]

  pick_event : WaitFlags → ℕ → Event → Act (Picked D) Unit
  unfolding pick_request pick_other
  pick_event opts now (request r) p = (ok tt, pick_request r p)
  pick_event opts now (closed reason) p = (err ("websocket closed: " ⧺ reason), p)
  pick_event opts now (request_resolved id log) p =
      pick_other opts now (request_resolved id log) (record p { resolved = p.resolved ++ id ∷ [] })
  pick_event opts now ignore p = pick_other opts now ignore p
  pick_event opts now (update u) p = pick_other opts now (update u) p
  pick_event opts now (turn_completed c) p = pick_other opts now (turn_completed c) p

  pick_normalized : WaitFlags → ℕ → Result Event → Act (Picked D) Unit
  unfolding pick_event
  pick_normalized opts now (err e) p = (err e, p)
  pick_normalized opts now (ok ev) p = pick_event opts now ev p

  -- What `normalize` yields in this state, and the state that it leaves.
  abbrev pub select_result : rpc.Event → Picked D → Result Event
  select_result raw p =
      (b.normalize raw (event_context p.loop.session false) p.loop.session.world).0

  abbrev pub select_picked : rpc.Event → Picked D → Picked D
  select_picked raw p = record p {
    loop = record p.loop {
      session = record p.loop.session {
        world = (b.normalize raw (event_context p.loop.session false) p.loop.session.world).1;
      };
    };
  }

  -- The body of the loop, from `defer_during_selection` on.
  unfoldable pub pick_raw : WaitFlags → ℕ → rpc.Event → Act (Picked D) Unit
  unfolding pick_normalized
  pick_raw opts now raw p =
      if b.defer_during_selection raw
      then (ok tt, record p { notifications = p.notifications ++ raw ∷ [] })
      else pick_normalized opts now (select_result raw p) (select_picked raw p)

  -- The events that were queued at the deadline.
  unfoldable pub pick_queued : WaitFlags → ℕ → List rpc.Event → Act (Picked D) Unit
  unfolding pick_raw
  pick_queued opts now [] p = (ok tt, p)
  pick_queued opts now (raw ∷ rest) p =
      let (r, p') = pick_raw opts now raw p in
      elim r [ err e ↦ (err e, p') | ok _ ↦ pick_queued opts now rest p' ]

  abbrev set_queue : List rpc.Event → Picked D → Picked D
  set_queue q p = record p {
    loop = record p.loop {
      session = record p.loop.session { events = record p.loop.session.events { queue = q } };
    };
  }

  abbrev poll_events : Poll → Picked D → Picked D
  poll_events poll p = record p {
    loop = record p.loop {
      session = record p.loop.session { events = enqueue poll p.loop.session.events };
    };
  }

  -- The `match` on the number of requests.
  unfoldable pub only_request :
      Session → List (Value × String) → List Value → Result (Value × String)
  only_request s [] resolved =
      err
        ("no pending server request was re-delivered within 10s of resuming thread " ⧺ s.thread_id)
  only_request s ((id, method) ∷ []) resolved =
      if any (λ seen. b.same_request_id seen id) resolved
      then err
          ("server request " ⧺ s.world.outside.display id ⧺ " was already resolved; no reply sent")
      else ok (id, method)
  only_request s (r ∷ q ∷ rest) resolved = err (
      show_ℕ (length (r ∷ q ∷ rest))
      ⧺ " pending server requests were re-delivered for thread "
      ⧺ s.thread_id
      ⧺ "; use --request-id to choose one")

  -- The deferred notifications are handled behind the answer; the first exit is the result.
  replay : WaitFlags → ℕ → List rpc.Event → Loop D → Result Step × Loop D
  unfolding handle_raw
  replay opts now [] l = (ok continue, l)
  replay opts now (raw ∷ rest) l =
      let (r, l') = handle_raw b opts now raw l in
      elim r [
        | err e ↦ (err e, l')
        | ok step ↦ elim step [
          | exit code ↦ (ok (exit code), l')
          | continue ↦ replay opts now rest (record l' { reply = none })
        ]
      ]

  after_replay : WaitFlags → ℕ → List Poll → Result Step × Loop D → Outcome × Loop D
  unfolding wait_loop
  after_replay opts now polls (err e, l) = (failed e, l)
  after_replay opts now polls (ok (exit code), l) = (exited code, l)
  after_replay opts now polls (ok continue, l) = wait_loop b opts now none polls l.session

  after_answer :
      WaitFlags
      → ℕ
      → List Poll
      → List rpc.Event
      → Loop D
      → Result (Unit {0}) × Session
      → Outcome × Loop D
  unfolding replay after_replay
  after_answer opts now polls notifications l (err e, s) = (failed e, record l { session = s })
  after_answer opts now polls notifications l (ok _, s) =
      after_replay opts now polls
        (replay opts now notifications (record l { session = s; reply = none }))

  -- Behind the window: choose, answer, go on.
  unfoldable pub conclude : WaitFlags → ℕ → ReplyPayload D → List Poll → Picked D → Outcome × Loop D
  unfolding only_request after_answer answer_request
  conclude opts now payload polls p = elim (only_request p.loop.session p.requests p.resolved) [
    | err e ↦ (failed e, p.loop)
    | ok (id, method) ↦
        after_answer opts now polls p.notifications p.loop
          (answer_request b id method payload p.loop.session)
  ]

  -- The window: its deadline comes before any event.
  unfoldable pub window : WaitFlags → ℕ → ReplyPayload D → List Poll → Picked D → Outcome × Loop D
  unfolding pick_raw pick_queued conclude enqueue
  window opts until payload [] p = (waiting, p.loop)
  window opts until payload (poll ∷ polls) p =
      let p' = poll_events poll p in
      elim (leb until poll.now) [
        | true ↦
            let (r, q) = pick_queued opts poll.now p'.loop.session.events.queue (set_queue [] p') in
            elim r [ err e ↦ (failed e, q.loop) | ok _ ↦ conclude opts poll.now payload polls q ]
        | false ↦ elim p'.loop.session.events.queue [
          | [] ↦
              if p'.loop.session.events.ended
              then (failed "event stream ended unexpectedly", p'.loop)
              else window opts until payload polls p'
          | raw ∷ rest ↦
              let (r, q) = pick_raw opts poll.now raw (set_queue rest p') in
              elim r [ err e ↦ (failed e, q.loop) | ok _ ↦ window opts until payload polls q ]
        ]
      ]

  after_subscribe :
      WaitFlags → ℕ → ReplyPayload D → List Poll → Result (Unit {0}) × Session → Outcome × Loop D
  unfolding window
  after_subscribe opts now payload polls (err e, s) =
      (failed e, record { session = s; reply = none; last_item = now })
  after_subscribe opts now payload polls (ok _, s) =
      window opts (now + reply_redelivery_secs * second) payload polls (record {
        loop = record { session = s; reply = none; last_item = now };
        requests = [];
        notifications = [];
        resolved = [];
      })

  unfoldable pub reply_to_only_request :
      WaitFlags → ℕ → ReplyPayload D → List Poll → Session → Outcome × Loop D
  unfolding after_subscribe
  reply_to_only_request opts now payload polls s =
      after_subscribe opts now payload polls (on_world (b.subscribe s.thread_id) s)
