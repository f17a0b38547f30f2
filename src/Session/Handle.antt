-- ===== src/Session/Handle.antt =====
-- The session of src/core/session.rs and what it does with one event: `handle`, `handle_event`,
-- `answer_request`, `emit_turn`.
mod State
pub mod Frames
pub mod Exits
pub mod Logs
pub mod Queue
use codex_bridge.Common.{
  ℕ, ◌-◌, Bool, false, ◌&&◌, String, Option, none, some, [], ◌∷◌, ◌⧺◌, ◌==◌, Act, Result, ok, err,
  lift, modify, ◌>>=◌, ◌>>◌, is_some, is_some_and, or_else, unwrap_or, ltb, if◌then◌else◌,
}
use codex_bridge.Json.{Value, str, get, object, opt_str, extend_fields}
use codex_bridge.Connection.{World, respond_result, respond_error}
use codex_bridge.Logging.{Emitter, emit, write_log}
use codex_bridge.Backend.{
  Backend, Event, ignore, closed, request, update, turn_completed, request_resolved, UpdateFields,
  Completion, Request, EventContext, WaitFlags,
}
use codex_bridge.Session.Wake.{Receiver}
unfoldable pub use State.*

module _ {Run D : Type 0} (b : Backend Run D) where
  pub response_body : String → ReplyPayload D → Result Value
  response_body method (decision d) = b.decision_response method d
  response_body method (result_json v) = ok v

  abbrev pub replied_event : String → Value → String → Value → Value
  replied_event thread_id id method body = object (
      ("event", str "replied")
      ∷ ("threadId", str thread_id)
      ∷ ("requestId", id)
      ∷ ("method", str method)
      ∷ ("result", body)
      ∷ [])

  unfoldable pub answer_request : Value → String → ReplyPayload D → Act Session Unit
  unfolding response_body log_event
  answer_request id method payload = do
    body ← lift (response_body method payload)
    on_world (respond_result id body)
    modify (λ s. log_event (replied_event s.thread_id id method body) s)

  -- The pending reply is for this request.
  abbrev pub is_awaited : Option (PendingReply D) → Value → Bool
  is_awaited pending id = is_some_and (λ r. b.same_request_id r.id id) pending

  abbrev on_session {ℓ} : {A : Type ℓ} → (Session → Result A × Session) → Loop D → Result A × Loop D
  on_session m l = let (r, s) = m l.session in (r, record l { session = s })

  -- A request counts as progress for some backends.
  abbrev request_progress : ℕ → Loop D → Loop D
  request_progress now l = record l {
    last_item = if b.wait_policy.request_is_progress then now else l.last_item;
  }

  -- `reply.take()`, then the answer.
  answer_awaited : ℕ → Request → Option (PendingReply D) → Act (Loop D) Step
  unfolding answer_request
  answer_awaited now r none l = (ok continue, l)
  answer_awaited now r (some pending) l =
      let (done, l') =
        on_session (answer_request r.id r.method pending.payload) (record l { reply = none }) in
      elim done [ ok _ ↦ (ok continue, request_progress now l') | err e ↦ (err e, l') ]

  abbrev pub declined_event : String → Request → Value
  declined_event thread_id r = object (
      ("event", str "autoDeclined")
      ∷ ("threadId", str thread_id)
      ∷ ("requestId", r.id)
      ∷ ("method", str r.method)
      ∷ ("message", str b.unattended.1)
      ∷ [])

  auto_decline : ℕ → Request → Act (Loop D) Step
  unfolding log_event
  auto_decline now r l =
      let (done, l') = on_session (on_world (respond_error r.id b.unattended.0 b.unattended.1)) l in
      elim done [
        | err e ↦ (err e, l')
        | ok _ ↦ (
          ok continue,
          request_progress now (record l' {
            session = log_event (declined_event l'.session.thread_id r) l'.session;
          }),
        )
      ]

  abbrev pub request_event : Session → Request → Value
  request_event s r = object (
      ("event", str "request")
      ∷ ("threadId", unwrap_or (get "threadId" r.params) (str s.thread_id))
      ∷ ("requestId", r.id)
      ∷ ("method", str r.method)
      ∷ ("params", r.params)
      ∷ [])

  report_request : WaitFlags → Request → Act (Loop D) Step
  unfolding emit_event
  report_request opts r l = (
    ok (if opts.follow then continue else exit exit_request_pending),
    record l { session = emit_event (request_event l.session r) l.session },
  )

  handle_request : WaitFlags → ℕ → Request → Act (Loop D) Step
  unfolding answer_awaited auto_decline report_request
  handle_request opts now r l =
      if is_awaited l.reply r.id
      then answer_awaited now r l.reply l
      else if is_some l.reply && b.wait_policy.isolate_selected_request
      then (ok continue, l)
      else if opts.auto_decline
      then auto_decline now r l
      else report_request opts r l

  handle_update : ℕ → UpdateFields → Loop D → Loop D
  unfolding log_event
  handle_update now u l =
      let s = set_turn u.turn_id u.final_message l.session in
      record l {
        session = elim u.log [ some v ↦ log_event v s | none ↦ s ];
        last_item = if u.progress then now else l.last_item;
      }

  handle_completion : Completion → Act (Loop D) Step
  unfolding emit_turn
  handle_completion c l =
      let (code, s) = emit_turn c.status c.fields (set_turn c.turn_id c.final_message l.session) in
      (ok (exit code), record l { session = s })

  unfoldable pub handle_event : WaitFlags → ℕ → Event → Act (Loop D) Step
  unfolding emit_event log_event handle_request handle_update handle_completion
  handle_event opts now ignore l = (ok continue, l)
  handle_event opts now (closed reason) l = (
    ok (exit exit_error),
    record l { session = emit_event (error_event ("websocket closed: " ⧺ reason)) l.session },
  )
  handle_event opts now (update u) l = (ok continue, handle_update now u l)
  handle_event opts now (turn_completed c) l = handle_completion c l
  handle_event opts now (request_resolved id log) l =
      let l' = record l { session = log_event log l.session } in
      if is_awaited l.reply id
      then (err "pending server request was already resolved; no reply sent", l')
      else (ok continue, l')
  handle_event opts now (request r) l = handle_request opts now r l

  -- `suppress_log` is set while an event of before the log is handled.
  abbrev suppress : Session → Session
  suppress s = record s {
    out = record s.out {
      suppress_log = ltb 0 s.out.unlogged_events;
      unlogged_events = s.out.unlogged_events - 1;
    };
  }

  abbrev unsuppress : Session → Session
  unsuppress s = record s { out = record s.out { suppress_log = false } }

  unfoldable pub handle : WaitFlags → ℕ → Event → Act (Loop D) Step
  unfolding handle_event
  handle opts now event l =
      let (r, l') = handle_event opts now event (record l { session = suppress l.session }) in
      (r, record l' { session = unsuppress l'.session })
