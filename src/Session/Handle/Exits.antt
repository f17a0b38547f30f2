-- ===== src/Session/Handle/Exits.antt =====
-- How one event ends the wait (`handle` of src/core/session.rs), and what leaves everything as it was.
use codex_bridge.Common.{
  ℕ, ◌≡◌, inl, inr, false, String, arith, ok, Bool-cases, ◌↔◌, refl, ◌&&◌, is_some,
}
use codex_bridge.Connection.{respond_result, respond_error}
use codex_bridge.Backend.{
  Backend, Event, ignore, closed, request, update, turn_completed, request_resolved, Request,
  WaitFlags, Completion,
}
use codex_bridge.Session.Handle.{
  Loop, exit, exit_error, exit_request_pending, turn_code, is_awaited, handle, handle_request,
  suppress,
}

module _ {Run D : Type 0} (b : Backend Run D) where
  -- The events that end the wait, each with its code.
  pub data Ends (opts : WaitFlags) (l : Loop D) : Event → ℕ → Type 0 where
    by_close : (reason : String) → Ends opts l (closed reason) exit_error
    by_turn : (c : Completion) → Ends opts l (turn_completed c) (turn_code c.status)
    by_request :
        (r : Request)
        → is_awaited b l.reply r.id ≡ false
        → (is_some l.reply && b.wait_policy.isolate_selected_request) ≡ false
        → opts.auto_decline ≡ false
        → opts.follow ≡ false
        → Ends opts l (request r) exit_request_pending

  request-Ends :
      (opts : WaitFlags) (now : ℕ) (r : Request) (l : Loop D) (code : ℕ)
      → (handle_request b opts now r l).0 ≡ ok (exit code)
      → (is_awaited b l.reply r.id ≡ false)
        × ((is_some l.reply && b.wait_policy.isolate_selected_request) ≡ false)
        × (opts.auto_decline ≡ false)
        × (opts.follow ≡ false)
        × (code ≡ exit_request_pending)
  unfolding handle_request respond_result respond_error
  request-Ends opts now r l code h = elim (Bool-cases (is_awaited b l.reply r.id)) [
    | inl awaited ↦ absurd (ground arith)
    | inr other ↦ elim (Bool-cases (is_some l.reply && b.wait_policy.isolate_selected_request)) [
      | inl isolated ↦ absurd (ground arith)
      | inr shown ↦ elim (Bool-cases opts.auto_decline) [
        | inl auto ↦ absurd (ground arith)
        | inr manual ↦ (other, shown, manual, ground arith, ground arith)
      ]
    ]
  ]

  pub handle-Ends :
      (opts : WaitFlags) (now : ℕ) (ev : Event) (l : Loop D) (code : ℕ)
      → (handle b opts now ev l).0 ≡ ok (exit code)
      → Ends opts l ev code
  unfolding handle
  handle-Ends opts now ignore l code h = cc
  handle-Ends opts now (closed reason) l code h =
      let e : code ≡ exit_error = cc in rw e (by_close reason)
  handle-Ends opts now (update u) l code h = cc
  handle-Ends opts now (turn_completed c) l code h =
      let e : code ≡ turn_code c.status = cc in rw e (by_turn c)
  handle-Ends opts now (request_resolved id log) l code h = absurd (ground arith)
  handle-Ends opts now (request r) l code h =
      let (other, shown, manual, once, e) =
        request-Ends opts now r (record l { session = suppress b l.session }) code h in
      rw e (by_request r other shown manual once)

  request-exit :
      (opts : WaitFlags) (now : ℕ) (r : Request) (l : Loop D)
      → is_awaited b l.reply r.id ≡ false
      → (is_some l.reply && b.wait_policy.isolate_selected_request) ≡ false
      → opts.auto_decline ≡ false
      → opts.follow ≡ false
      → (handle_request b opts now r l).0 ≡ ok (exit exit_request_pending)
  unfolding handle_request
  request-exit opts now r l other shown manual once =
      rw (other, shown, manual, once, handle_request) refl

  Ends-exit :
      (opts : WaitFlags) (now : ℕ) (l : Loop D) (ev : Event) (code : ℕ)
      → Ends opts l ev code
      → (handle b opts now ev l).0 ≡ ok (exit code)
  unfolding handle
  Ends-exit opts now l _ _ (by_close reason) = refl
  Ends-exit opts now l _ _ (by_turn c) = refl
  Ends-exit opts now l _ _ (by_request r other shown manual once) =
      request-exit opts now r (record l { session = suppress b l.session }) other shown manual once

  -- An event ends the wait exactly in three cases: the connection's close, with 4; a turn's completion, with 0 or 1 by
  -- its status; and, with 2, a request that is not the awaited one and is not kept apart while a reply waits, without
  -- `auto_decline` and `follow`.
  pub handle-Ends_iff :
      (opts : WaitFlags) (now : ℕ) (ev : Event) (l : Loop D) (code : ℕ)
      → ((handle b opts now ev l).0 ≡ ok (exit code)) ↔ Ends opts l ev code
  handle-Ends_iff opts now ev l code =
      (handle-Ends opts now ev l code, Ends-exit opts now l ev code)
