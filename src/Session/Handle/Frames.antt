-- ===== src/Session/Handle/Frames.antt =====
-- What `handle` of src/core/session.rs writes to the socket.
use codex_bridge.Common.{
  ℕ, ◌≡◌, refl, ◌⊎◌, inl, inr, true, false, none, some, ◌∷◌, arith, ok, is_some, ◌&&◌, Bool-cases,
  Option-cases, Result-cases,
}
use codex_bridge.Json.{Value}
use codex_bridge.Connection.{respond_result, respond_error, result_frame, error_frame}
use codex_bridge.Backend.{
  Backend, Event, ignore, closed, request, update, turn_completed, request_resolved, Request,
  WaitFlags,
}
use codex_bridge.Session.Handle.{
  Loop, PendingReply, is_awaited, response_body, handle_request, handle, suppress,
}

module _ {Run D : Type 0} (b : Backend Run D) where
  -- The answer that a request gets, of the two kinds there are.
  pub record IsAnswer (opts : WaitFlags) (r : Request) (l l' : Loop D) : Type 0 where
    pub frame : Value
    pub written : l'.session.world.sent ≡ frame ∷ l.session.world.sent
    pub kind :
        ((pending : PendingReply D) × (body : Value) × (l.reply ≡ some pending)
          × (b.same_request_id pending.id r.id ≡ true)
          × (response_body b r.method pending.payload ≡ ok body)
          × (frame ≡ result_frame r.id body)
          × (l'.reply ≡ none))
        ⊎ ((is_awaited b l.reply r.id ≡ false)
            × (opts.auto_decline ≡ true)
            × (frame ≡ error_frame r.id b.unattended.0 b.unattended.1))

  request-frames :
      (opts : WaitFlags) (now : ℕ) (r : Request) (l : Loop D)
      → ((handle_request b opts now r l).1.session.world.sent ≡ l.session.world.sent)
        ⊎ IsAnswer opts r l (handle_request b opts now r l).1
  unfolding handle_request respond_result respond_error
  request-frames opts now r l = elim (Bool-cases (is_awaited b l.reply r.id)) [
    | inl awaited ↦ elim (Option-cases l.reply) [
      | inl e ↦ absurd (ground arith)
      | inr (pending, e) ↦ elim (Result-cases (response_body b r.method pending.payload)) [
        | inl (body, e₁) ↦
            elim (Option-cases
              (l.session.world.outside.accepts (result_frame r.id body ∷ l.session.world.sent))) [
                | inl e₂ ↦ inr (record {
                  frame = result_frame r.id body;
                  written = ground arith;
                  kind = inl (pending, body, e, ground arith, e₁, refl, ground arith);
                })
                | inr (x, e₂) ↦ inl (ground arith)
              ]
        | inr (x, e₁) ↦ inl (ground arith)
      ]
    ]
    | inr other ↦ elim (Bool-cases opts.auto_decline) [
      | inl auto ↦ elim (Bool-cases (is_some l.reply && b.wait_policy.isolate_selected_request)) [
        | inl isolated ↦ inl (ground arith)
        | inr open_to ↦
            elim (Option-cases (
              l.session.world.outside.accepts
                (error_frame r.id b.unattended.0 b.unattended.1 ∷ l.session.world.sent))) [
                  | inl e ↦ inr (record {
                    frame = error_frame r.id b.unattended.0 b.unattended.1;
                    written = ground arith;
                    kind = inr (other, auto, refl);
                  })
                  | inr (x, e) ↦ inl (ground arith)
                ]
      ]
      | inr manual ↦ inl (ground arith)
    ]
  ]

  -- The frame that `handle` writes, if any: for a request alone, either the answer of the pending
  -- reply that it matches, which is then spent, or, under `auto_decline`, the unattended error.
  pub handle_frames :
      (opts : WaitFlags) (now : ℕ) (ev : Event) (l : Loop D)
      → ((handle b opts now ev l).1.session.world.sent ≡ l.session.world.sent)
        ⊎ ((r : Request) × (ev ≡ request r) × IsAnswer opts r l (handle b opts now ev l).1)
  unfolding handle
  handle_frames opts now ignore l = inl refl
  handle_frames opts now (closed reason) l = inl refl
  handle_frames opts now (update u) l = inl (ground arith)
  handle_frames opts now (turn_completed c) l = inl refl
  handle_frames opts now (request_resolved id log) l = inl (ground arith)
  handle_frames opts now (request r) l =
      elim (request-frames opts now r (record l { session = suppress b l.session })) [
        | inl e ↦ inl e
        | inr a ↦ inr (r, refl, record { frame = a.frame; written = a.written; kind = a.kind })
      ]

  request-reply :
      (opts : WaitFlags) (now : ℕ) (r : Request) (l : Loop D)
      → ((handle_request b opts now r l).1.reply ≡ l.reply)
        ⊎ ((handle_request b opts now r l).1.reply ≡ none)
  unfolding handle_request respond_result respond_error
  request-reply opts now r l = ground arith

  -- The pending reply stays, or is spent.
  pub handle-reply :
      (opts : WaitFlags) (now : ℕ) (ev : Event) (l : Loop D)
      → ((handle b opts now ev l).1.reply ≡ l.reply) ⊎ ((handle b opts now ev l).1.reply ≡ none)
  unfolding handle
  handle-reply opts now (request r) l = request-reply opts now r _
  handle-reply opts now ignore l = inl refl
  handle-reply opts now (closed reason) l = inl refl
  handle-reply opts now (update u) l = inl refl
  handle-reply opts now (turn_completed c) l = inl refl
  handle-reply opts now (request_resolved id log) l = inl (ground arith)

  request-last_item :
      (opts : WaitFlags) (now : ℕ) (r : Request) (l : Loop D)
      → ((handle_request b opts now r l).1.last_item ≡ l.last_item)
        ⊎ ((handle_request b opts now r l).1.last_item ≡ now)
  unfolding handle_request respond_result respond_error
  request-last_item opts now r l = ground arith

  -- The time of the last progress stays, or is now.
  pub handle-last_item :
      (opts : WaitFlags) (now : ℕ) (ev : Event) (l : Loop D)
      → ((handle b opts now ev l).1.last_item ≡ l.last_item)
        ⊎ ((handle b opts now ev l).1.last_item ≡ now)
  unfolding handle
  handle-last_item opts now (request r) l = request-last_item opts now r _
  handle-last_item opts now ignore l = inl refl
  handle-last_item opts now (closed reason) l = inl refl
  handle-last_item opts now (update u) l = ground arith
  handle-last_item opts now (turn_completed c) l = inl refl
  handle-last_item opts now (request_resolved id log) l = inl (ground arith)
