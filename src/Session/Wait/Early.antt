-- ===== src/Session/Wait/Early.antt =====
-- A wait in src/core/session.rs whose polls come before its deadlines.
use codex_bridge.Common.{
  ℕ, ◌+◌, ◌*◌, nat_eq, if◌then◌else◌, ◌≤◌, ◌<◌, ◌≡◌, ◌≢◌, refl, ◌⊎◌, inl, Bool, true, false, Option,
  none, some, List, arith, Result, ok, err, All,
}
use codex_bridge.Backend.{Backend, Event, WaitFlags}
use codex_bridge.Session.Wake.{
  Poll, Deadlines, Wake, event, reply, stall, timeout, next_wake, deadline,
}
use codex_bridge.Session.Handle.{Session, Loop, PendingReply, exit}
use codex_bridge.Session.Handle.Exits.{Ends, by_close, by_turn, by_request, handle-Ends}
use codex_bridge.Session.Handle.Frames.{handle-last_item}
use codex_bridge.Session.Wait.{
  Outcome, exited, on_wake, handle_raw, handle_normalized, normalize_result, normalize_loop,
  pop_event, wait_loop, deadlines_at, start_loop,
}
use codex_bridge.Session.Wait.Rules.{wait_polls_rule, wait_loop_rule}

module _ {Run D : Type 0} (b : Backend Run D) (opts : WaitFlags) where
  -- The milliseconds of `secs` seconds behind `now`; a year for no seconds.
  abbrev pub over_at : ℕ → ℕ → ℕ
  over_at now secs = if nat_eq secs 0 then now + 31536000000 else now + secs * 1000

  abbrev pub IsEarly : ℕ → Poll → Type 0
  IsEarly start p =
      (start ≤ p.now)
      × (p.now < over_at start opts.stall_secs)
      × (p.now < over_at start opts.timeout_secs)

  abbrev pub NotStalled : Outcome → Type 0
  NotStalled (exited code) = code ≢ 3
  NotStalled _ = Unit

  renewed :
      (started now : ℕ) (l : Loop D)
      → started ≤ now
      → started ≤ l.last_item
      → (over_at started opts.stall_secs ≤ (deadlines_at b opts started now l).stall)
        × (over_at started opts.timeout_secs ≤ (deadlines_at b opts started now l).timeout)
  unfolding deadlines_at deadline
  renewed started now l h k = ground arith

  pub on_wake-last_item :
      (now : ℕ) (wake : Wake) (l : Loop D)
      → ((on_wake b opts now wake l).1.last_item ≡ l.last_item)
        ⊎ ((on_wake b opts now wake l).1.last_item ≡ now)
  unfolding on_wake handle_raw
  on_wake-last_item now (event (some raw)) l =
      normalized-last_item now (normalize_result b raw (pop_event b l))
        (normalize_loop b raw (pop_event b l))
    where
      normalized-last_item :
          (now : ℕ) (r : Result Event) (l : Loop D)
          → ((handle_normalized b opts now r l).1.last_item ≡ l.last_item)
            ⊎ ((handle_normalized b opts now r l).1.last_item ≡ now)
      normalized-last_item now (err e) l = inl refl
      normalized-last_item now (ok ev) l = handle-last_item b opts now ev l
  on_wake-last_item now (event none) l = inl refl
  on_wake-last_item now reply l = inl refl
  on_wake-last_item now stall l = ground arith
  on_wake-last_item now timeout l = inl refl

  Ends-not_stalled : {l : Loop D} {ev : Event} {code : ℕ} → Ends b opts l ev code → code ≢ 3
  Ends-not_stalled (by_close reason) = omega arith
  Ends-not_stalled (by_turn c) = ground arith
  Ends-not_stalled (by_request r other shown manual once) = omega arith

  handle-not_stalled :
      (now : ℕ) (r : Result Event) (l : Loop D) (code : ℕ)
      → (handle_normalized b opts now r l).0 ≡ ok (exit code)
      → code ≢ 3
  unfolding handle_normalized
  handle-not_stalled now (err e) l code h = cc
  handle-not_stalled now (ok ev) l code h = Ends-not_stalled (handle-Ends b opts now ev l code h)

  not_over :
      (first : Bool) (d : Deadlines) (p : Poll) (l : Loop D) (wake : Wake)
      → p.now < d.stall
      → p.now < d.timeout
      → next_wake first p.now d l.session.events ≡ some wake
      → (wake ≢ stall) × (wake ≢ timeout)
  unfolding next_wake
  not_over true d p l wake h k woke = ground arith
  not_over false d p l wake h k woke = ground arith

  wake-not_stalled :
      (d : Deadlines) (p : Poll) (l : Loop D) (wake : Wake) (code : ℕ)
      → p.now < d.stall
      → p.now < d.timeout
      → next_wake b.wait_policy.deadlines_first p.now d l.session.events ≡ some wake
      → (on_wake b opts p.now wake l).0 ≡ ok (exit code)
      → code ≢ 3
  unfolding on_wake handle_raw
  wake-not_stalled d p l (event (some raw)) code h k woke e =
      handle-not_stalled p.now (normalize_result b raw (pop_event b l))
        (normalize_loop b raw (pop_event b l)) code e
  wake-not_stalled d p l (event none) code h k woke e = let q : code ≡ 4 = cc in omega arith
  wake-not_stalled d p l reply code h k woke e = let q : code ≡ 4 = cc in omega arith
  wake-not_stalled d p l stall code h k woke e =
      absurd ((not_over b.wait_policy.deadlines_first d p l stall h k woke).0 refl)
  wake-not_stalled d p l timeout code h k woke e =
      absurd ((not_over b.wait_policy.deadlines_first d p l timeout h k woke).1 refl)

  -- A wait whose polls all come before `stall_secs` and before `timeout_secs` seconds have passed since it began
  -- does not exit with 3; a year stands for a setting of no seconds.
  pub wait_loop-NotStalled :
      (now : ℕ) (reply_to : Option (PendingReply D)) (polls : List Poll) (s : Session)
      → All (IsEarly now) polls
      → NotStalled (wait_loop b opts now reply_to polls s).0
  wait_loop-NotStalled now reply_to polls s early =
      wait_loop_rule b opts (λ o. NotStalled o.0) now reply_to polls s (λ _. tt)
        (wait_polls_rule b opts (λ l. now ≤ l.last_item) NotStalled (IsEarly now)
          (λ d.
            (over_at now opts.stall_secs ≤ d.stall) × (over_at now opts.timeout_secs ≤ d.timeout))
          now (λ p l _ h. h) (λ d p l wake r t h woke. kept p wake l r.0 h)
          (λ p l r h. renewed now p.now l r.0 h) (λ e. tt)
          (λ d p l wake code r t h woke e.
            wake-not_stalled d p l wake code (omega arith) (omega arith) woke e)
          tt (λ p l _ _ _. tt) polls (deadlines_at b opts now now (start_loop b now reply_to s))
          (start_loop b now reply_to s) early
          (renewed now now (start_loop b now reply_to s) (omega arith) (omega arith))
          (omega arith)).0
    where
      kept :
          (p : Poll) (wake : Wake) (l : Loop D)
          → now ≤ p.now
          → now ≤ l.last_item
          → now ≤ (on_wake b opts p.now wake l).1.last_item
      kept p wake l h k = omega (arith, on_wake-last_item p.now wake l)
