-- ===== src/Session/Wait/Ends.antt =====
-- When and with which code the wait loop of src/core/session.rs ends.
use codex_bridge.Common.{
  ℕ, ◌+◌, ◌*◌, ◌≤◌, ◌<◌, ◌≡◌, ◌≢◌, inl, inr, Bool, true, false, Option, none, some, List, [], ◌∷◌,
  arith, Result, ok, err, Option-cases, Result-cases, Bool-cases, leb, any, ◌==◌, ◌||◌, ◌∙◌, ap,
  if◌then◌else◌,
}
use codex_bridge.Backend.{Backend, Event, WaitFlags}
use codex_bridge.Session.Wake.{
  Poll, Deadlines, Wake, event, reply, stall, timeout, next_wake, second,
}
use codex_bridge.Session.Handle.{Session, Loop, PendingReply, exit, continue}
use codex_bridge.Session.Handle.Exits.{Ends, by_close, by_turn, by_request, handle-Ends}
use codex_bridge.Session.Wait.{
  Outcome, waiting, exited, panicked, overflows, on_wake, on_stall, handle_raw, handle_normalized,
  normalize_result, normalize_loop, pop_event, take_poll, poll_step, wait_polls, wait_loop,
  deadlines_at, start_loop,
}
use codex_bridge.Session.Wait.Early.{on_wake-last_item}
use codex_bridge.Session.Wait.Overflow.{IsLate, IsBy, overflows-IsLate}
use codex_bridge.Session.Wait.Rules.{wait_polls_rule, wait_loop_rule, Step-cases}

module _ {Run D : Type 0} (b : Backend Run D) (opts : WaitFlags) where
  -- What a code tells of the flags.
  pub data AllowedExit : ℕ → Type 0 where
    completed : AllowedExit 0
    not_completed : AllowedExit 1
    unanswered : opts.follow ≡ false → opts.auto_decline ≡ false → AllowedExit 2
    stalled : AllowedExit 3
    broken : AllowedExit 4

  -- `t` is an instant that no poll comes behind.
  abbrev pub IsAllowed : ℕ → Outcome → Type 0
  IsAllowed t (exited code) = AllowedExit code
  IsAllowed t panicked = IsLate opts t
  IsAllowed t _ = Unit

  pub turn-AllowedExit : (b : Bool) → AllowedExit (if b then 0 else 1)
  turn-AllowedExit true = completed
  turn-AllowedExit false = not_completed

  Ends-AllowedExit : {l : Loop D} {ev : Event} {code : ℕ} → Ends b opts l ev code → AllowedExit code
  Ends-AllowedExit (by_close reason) = broken
  Ends-AllowedExit (by_turn c) = turn-AllowedExit (c.status == "completed")
  Ends-AllowedExit (by_request r other shown manual once) = unanswered once manual

  pub normalized-AllowedExit :
      (now : ℕ) (r : Result Event) (l : Loop D) (code : ℕ)
      → (handle_normalized b opts now r l).0 ≡ ok (exit code)
      → AllowedExit code
  unfolding handle_normalized
  normalized-AllowedExit now (err e) l code h = cc
  normalized-AllowedExit now (ok ev) l code h =
      Ends-AllowedExit (handle-Ends b opts now ev l code h)

  wake-AllowedExit :
      (now : ℕ) (wake : Wake) (l : Loop D) (code : ℕ)
      → (on_wake b opts now wake l).0 ≡ ok (exit code)
      → AllowedExit code
  unfolding on_wake handle_raw on_stall
  wake-AllowedExit now (event (some raw)) l code h =
      normalized-AllowedExit now (normalize_result b raw (pop_event b l))
        (normalize_loop b raw (pop_event b l)) code h
  wake-AllowedExit now (event none) l code h = let e : code ≡ 4 = cc in rw e broken
  wake-AllowedExit now reply l code h = let e : code ≡ 4 = cc in rw e broken
  wake-AllowedExit now stall l code h = let e : code ≡ 3 = ground arith in rw e stalled
  wake-AllowedExit now timeout l code h = let e : code ≡ 3 = cc in rw e stalled

  -- A wait that exits does so with 0, 1, 3, 4, or with 2, and with that only without `follow` and
  -- without `auto_decline`; it panics only if a deadline overflows.
  pub wait_loop-IsAllowed :
      (t now : ℕ) (pending : Option (PendingReply D)) (polls : List Poll) (s : Session)
      → now ≤ t
      → IsBy t polls
      → IsAllowed t (wait_loop b opts now pending polls s).0
  wait_loop-IsAllowed t now pending polls s soon by =
      wait_loop_rule b opts (λ o. IsAllowed t o.0) now pending polls s
        (overflows-IsLate b opts t now now (start_loop b now pending s) soon soon soon)
        (wait_polls_rule b opts (λ l. l.last_item ≤ t) (IsAllowed t) (λ p. p.now ≤ t) (λ _. Unit)
          now (λ p l _ h. h) (λ d p l wake r _ h _. kept p wake l r h) (λ p l _ _. tt) (λ e. tt)
          (λ d p l wake code _ _ _ _ h. wake-AllowedExit p.now wake l code h) tt
          (λ p l r h over. overflows-IsLate b opts t now p.now l soon r h over) polls _ _ by tt
          soon).0
    where
      kept :
          (p : Poll) (wake : Wake) (l : Loop D)
          → p.now ≤ t
          → l.last_item ≤ t
          → (on_wake b opts p.now wake l).1.last_item ≤ t
      kept p wake l h k = omega (arith, on_wake-last_item b opts p.now wake l)

  timeout_at :
      (started now : ℕ) (l : Loop D)
      → 0 < opts.timeout_secs
      → (deadlines_at b opts started now l).timeout ≡ started + opts.timeout_secs * second
  unfolding deadlines_at
  timeout_at started now l limited = ground arith

  -- A poll at the timeout is not let pass, and does not let the loop go on.
  not_yet :
      (d : Deadlines) (p : Poll) (l : Loop D) {late_rest : Bool} {at : ℕ}
      → b.wait_policy.deadlines_first ≡ true
      → d.timeout ≡ at
      → (leb at p.now || late_rest) ≡ true
      → poll_step b opts d p l ≡ none
      → late_rest ≡ true
  unfolding poll_step next_wake
  not_yet d p l first same late e = ground arith

  went_on :
      (d : Deadlines) (p : Poll) (l l' : Loop D) {late_rest : Bool} {at : ℕ}
      → b.wait_policy.deadlines_first ≡ true
      → d.timeout ≡ at
      → (leb at p.now || late_rest) ≡ true
      → poll_step b opts d p l ≡ some (ok continue, l')
      → late_rest ≡ true
  unfolding poll_step next_wake on_wake
  went_on d p l l' first same late e = elim (Bool-cases (leb d.timeout p.now)) [
    | inl over ↦ absurd (ground arith)
    | inr before ↦ ground arith
  ]

  polls_end :
      (started : ℕ) (d : Deadlines) (ps : List Poll) (l : Loop D)
      → b.wait_policy.deadlines_first ≡ true
      → 0 < opts.timeout_secs
      → d.timeout ≡ started + opts.timeout_secs * second
      → any (λ p. leb (started + opts.timeout_secs * second) p.now) ps ≡ true
      → (wait_polls b opts started d ps l).0 ≢ waiting
  unfolding wait_polls
  polls_end started d [] l first limited same late = ground arith
  polls_end started d (p ∷ ps) l first limited same late =
      elim (Option-cases (poll_step b opts d p l)) [
        | inl e ↦
            rw (e, wait_polls)
              (polls_end started d ps (take_poll b p l) first limited same
                (not_yet d p l first same late e))
        | inr ((res, l'), e) ↦ elim (Result-cases res) [
          | inr (x, e₁) ↦ rw (e, e₁, wait_polls) (λ q. cc)
          | inl (step, e₁) ↦ elim (Step-cases step) [
            | inr (code, e₂) ↦ rw (e, e₁, e₂, wait_polls) (λ q. cc)
            | inl e₂ ↦ elim (Bool-cases (overflows b opts started p.now l')) [
              | inl over ↦ rw (e, e₁, e₂, over, wait_polls) (λ q. cc)
              | inr fits ↦
                  rw (e, e₁, e₂, fits, wait_polls)
                    (polls_end started (deadlines_at b opts started p.now l') ps l' first limited
                      (timeout_at started p.now l' limited)
                      (went_on d p l l' first same late
                        (e ∙ ap some (ap (λ r. (r, l')) (e₁ ∙ ap ok e₂)))))
            ]
          ]
        ]
      ]

  -- With deadlines first, a wait with a timeout is over once one of its polls comes at the timeout or later,
  -- whatever else arrives; the panic of a deadline that overflows ends it too.
  pub wait_loop-ends :
      (now : ℕ) (reply_to : Option (PendingReply D)) (polls : List Poll) (s : Session)
      → b.wait_policy.deadlines_first ≡ true
      → 0 < opts.timeout_secs
      → any (λ p. leb (now + opts.timeout_secs * second) p.now) polls ≡ true
      → (wait_loop b opts now reply_to polls s).0 ≢ waiting
  wait_loop-ends now reply_to polls s first limited late =
      wait_loop_rule b opts (λ o. o.0 ≢ waiting) now reply_to polls s (λ _ q. cc)
        (polls_end now (deadlines_at b opts now now (start_loop b now reply_to s)) polls
          (start_loop b now reply_to s) first limited
          (timeout_at now now (start_loop b now reply_to s) limited) late)
