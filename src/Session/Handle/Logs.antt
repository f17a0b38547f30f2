-- ===== src/Session/Handle/Logs.antt =====
-- What `handle` of src/core/session.rs prints and logs.
use codex_bridge.Common.{
  ℕ, ◌+◌, ◌<◌, ◌≡◌, refl, inl, inr, true, false, ◌&&◌, some, List, ◌∷◌, arith, is_some,
  if◌then◌else◌, Bool-cases, Option-cases, Result-cases, ◌⧺◌,
}
use codex_bridge.Json.{Value}
use codex_bridge.Host.{Outside}
use codex_bridge.Connection.{respond_result, respond_error, result_frame, error_frame}
use codex_bridge.Logging.{write_log, append, with_log_path}
use codex_bridge.Backend.{
  Backend, Event, ignore, closed, request, update, turn_completed, request_resolved, Request,
  UpdateFields, WaitFlags,
}
use codex_bridge.Session.Handle.{
  Loop, handle_event, handle_request, handle, is_awaited, response_body, suppress, handle_update,
  replied_event, declined_event, request_event, turn_event, error_event, set_turn,
}

module _ {Run D : Type 0} (b : Backend Run D) where
  request_unlogged :
      (opts : WaitFlags) (now : ℕ) (r : Request) (l : Loop D)
      → l.session.out.suppress_log ≡ true
      → ((handle_request b opts now r l).1.session.out.log ≡ l.session.out.log)
        × ((handle_request b opts now r l).1.session.out.unlogged_events
            ≡ l.session.out.unlogged_events)
  unfolding handle_request write_log append respond_result respond_error
  request_unlogged opts now r l h = ground arith

  -- While events from before the log are left to count, an event logs nothing, is counted off by one, and
  -- leaves logging on behind it.
  pub handle_unlogged :
      (opts : WaitFlags) (now : ℕ) (ev : Event) (l : Loop D)
      → 0 < l.session.out.unlogged_events
      → ((handle b opts now ev l).1.session.out.log ≡ l.session.out.log)
        × ((handle b opts now ev l).1.session.out.unlogged_events + 1
            ≡ l.session.out.unlogged_events)
        × ((handle b opts now ev l).1.session.out.suppress_log ≡ false)
  unfolding handle write_log respond_result respond_error
  handle_unlogged opts now ignore l h = ground arith
  handle_unlogged opts now (closed reason) l h = ground arith
  handle_unlogged opts now (update u) l h = ground arith
  handle_unlogged opts now (turn_completed c) l h = ground arith
  handle_unlogged opts now (request_resolved id log) l h = ground arith
  handle_unlogged opts now (request r) l h =
      let (same_log, same_count) =
        request_unlogged opts now r (record l { session = suppress b l.session }) (ground arith) in
      (same_log, ground arith, refl)

  -- The line is written, or its write fails.
  abbrev pub kept : Outside → Value → List Value → List Value
  kept o line lines = if o.appends (line ∷ lines) then line ∷ lines else lines

  -- From `l` to `l'`, whose log held `lines`: what is printed is logged too, and is one line.
  pub data Logged (l l' : Loop D) (lines : List Value) : Type 0 where
    silent :
        l'.session.world.stdout ≡ l.session.world.stdout
        → l'.session.out.log ≡ some lines
        → Logged l l' lines
    logged_only :
        (line : Value)
        → l'.session.world.stdout ≡ l.session.world.stdout
        → l'.session.out.log ≡ some (kept l.session.world.outside line lines)
        → Logged l l' lines
    both :
        (line : Value)
        → l'.session.world.stdout ≡ line ∷ l.session.world.stdout
        → l'.session.out.log ≡ some (kept l.session.world.outside line lines)
        → Logged l l' lines

  request-Logged :
      (opts : WaitFlags) (now : ℕ) (r : Request) (l : Loop D) (lines : List Value)
      → l.session.out.suppress_log ≡ false
      → l.session.out.log ≡ some lines
      → Logged l (handle_request b opts now r l).1 lines
  unfolding handle_request write_log append respond_result respond_error
  request-Logged opts now r l lines off e = elim (Bool-cases (is_awaited b l.reply r.id)) [
    | inl awaited ↦ elim (Option-cases l.reply) [
      | inl e₁ ↦ absurd (ground arith)
      | inr (pending, e₁) ↦ elim (Result-cases (response_body b r.method pending.payload)) [
        | inr (x, e₂) ↦ silent (ground arith) (ground arith)
        | inl (body, e₂) ↦
            elim (Option-cases
              (l.session.world.outside.accepts (result_frame r.id body ∷ l.session.world.sent))) [
                | inl e₃ ↦
                    logged_only (replied_event b l.session.thread_id r.id r.method body)
                      (ground arith) (ground arith)
                | inr (x, e₃) ↦ silent (ground arith) (ground arith)
              ]
      ]
    ]
    | inr other ↦ elim (Bool-cases (is_some l.reply && b.wait_policy.isolate_selected_request)) [
      | inl isolated ↦ silent (ground arith) (ground arith)
      | inr shown ↦ elim (Bool-cases opts.auto_decline) [
        | inr manual ↦
            both (with_log_path l.session.out.log_path (request_event b l.session r)) (ground arith)
              (ground arith)
        | inl auto ↦
            elim (Option-cases (
              l.session.world.outside.accepts
                (error_frame r.id b.unattended.0 b.unattended.1 ∷ l.session.world.sent))) [
                  | inl e₃ ↦
                      logged_only (declined_event b l.session.thread_id r) (ground arith)
                        (ground arith)
                  | inr (x, e₃) ↦ silent (ground arith) (ground arith)
                ]
      ]
    ]
  ]

  update-Logged :
      (now : ℕ) (u : UpdateFields) (l : Loop D) (lines : List Value)
      → l.session.out.suppress_log ≡ false
      → l.session.out.log ≡ some lines
      → Logged l (handle_update b now u l) lines
  unfolding handle_update write_log append
  update-Logged now u l lines off e = elim (Option-cases u.log) [
    | inl e₁ ↦ silent (ground arith) (ground arith)
    | inr (v, e₁) ↦ logged_only v (ground arith) (ground arith)
  ]

  -- Where the log is open and the event is not from before it, an event logs every line that it prints,
  -- in the same form, and prints and logs at most one; a line whose write to the log fails is missing there.
  pub handle-Logged :
      (opts : WaitFlags) (now : ℕ) (ev : Event) (l : Loop D) (lines : List Value)
      → l.session.out.unlogged_events ≡ 0
      → l.session.out.log ≡ some lines
      → Logged l (handle b opts now ev l).1 lines
  unfolding handle handle_event write_log append
  handle-Logged opts now ignore l lines h e = silent refl e
  handle-Logged opts now (closed reason) l lines h e =
      both (with_log_path l.session.out.log_path (error_event ("websocket closed: " ⧺ reason)))
        (ground arith) (ground arith)
  handle-Logged opts now (update u) l lines h e =
      convert
        (update-Logged now u (record l { session = suppress b l.session }) lines (ground arith) e)
    where
      convert :
          Logged
            (record l { session = suppress b l.session })
            (handle_update b now u (record l { session = suppress b l.session }))
            lines
          → Logged l (handle b opts now (update u) l).1 lines
      convert (silent p q) = silent p q
      convert (logged_only v p q) = logged_only v p q
      convert (both v p q) = both v p q
  handle-Logged opts now (turn_completed c) l lines h e =
      both
        (with_log_path l.session.out.log_path
          (turn_event c.status c.fields (set_turn c.turn_id c.final_message l.session)))
        (ground arith) (ground arith)
  handle-Logged opts now (request_resolved id log) l lines h e =
      logged_only log (ground arith) (ground arith)
  handle-Logged opts now (request r) l lines h e = convert (
      request-Logged opts now r (record l { session = suppress b l.session }) lines (ground arith)
        e)
    where
      convert :
          Logged
            (record l { session = suppress b l.session })
            (handle_request b opts now r (record l { session = suppress b l.session })).1
            lines
          → Logged l (handle b opts now (request r) l).1 lines
      convert (silent p q) = silent p q
      convert (logged_only v p q) = logged_only v p q
      convert (both v p q) = both v p q
