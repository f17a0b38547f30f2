-- ===== src/Session/Wait/Lost.antt =====
-- A connection that is lost while the wait loop of src/core/session.rs waits: the end that the reader of
-- src/backend/rpc.rs queues, behind whatever else it queued.
use codex_bridge.Common.{
  Bool-cases, ℕ, ◌<◌, ◌≡◌, ◌≢◌, refl, inl, inr, ◌∙◌, ap, Bool, true, false, String, Option, none,
  some, List, [], ◌∷◌, ◌++◌, arith, Result, ok, err, length, Option-cases, Result-cases, sym, subst,
  All, ◌≤◌, append_assoc, length-snoc,
}
use codex_bridge.Rpc as rpc
use codex_bridge.Rpc.Reader.{IsMessage, reader_closes_once}
use codex_bridge.Backend.{Backend, Event, EventContext, closed, WaitFlags}
use codex_bridge.Connection.{World}
use codex_bridge.Session.Wake.{
  Poll, Deadlines, Receiver, Wake, event, reply, stall, timeout, next_wake, enqueue, after_recv,
}
use codex_bridge.Session.Handle.{
  Session, Loop, PendingReply, Step, exit, continue, handle, event_context,
}
use codex_bridge.Session.Handle.Queue.{handle-events}
use codex_bridge.Session.Wait.{
  waiting, on_wake, on_stall, handle_raw, handle_normalized, normalize_result, normalize_loop,
  pop_event, take_poll, poll_step, wait_polls, wait_loop, overflows, deadlines_at, start_loop,
}
use codex_bridge.Session.Wait.Rules.{poll_step-some, Step-cases, wait_loop_rule}

full_wakes :
    (first : Bool) (now : ℕ) (d : Deadlines) (r : Receiver) (e : rpc.Event) (es : List rpc.Event)
    → r.queue ≡ e ∷ es
    → next_wake first now d r ≢ none
unfolding next_wake
full_wakes true now d r e es q h = ground arith
full_wakes false now d r e es q h = ground arith

-- The event that a queue yields is its head.
full_event :
    (first : Bool) (now : ℕ) (d : Deadlines) (r : Receiver) (e : rpc.Event) (es : List rpc.Event)
    (x : Option rpc.Event)
    → r.queue ≡ e ∷ es
    → next_wake first now d r ≡ some (event x)
    → x ≡ some e
unfolding next_wake
full_event true now d r e es x q h = ground arith
full_event false now d r e es x q h = ground arith

module _ {Run D : Type 0} (b : Backend Run D) (opts : WaitFlags) where
  -- The backend makes the end of the session of the end of the connection.
  abbrev pub TellsEnd : Type 0
  TellsEnd =
      (reason : String) (c : EventContext) (w : World)
      → (b.normalize (rpc.closed reason) c w).0 ≡ ok (closed reason)

  normalized-events :
      (now : ℕ) (r : Result Event) (l : Loop D)
      → (handle_normalized b opts now r l).1.session.events ≡ l.session.events
  unfolding handle_normalized
  normalized-events now (err e) l = refl
  normalized-events now (ok ev) l = handle-events b opts now ev l

  -- Taking an event takes it from the queue, and nothing else.
  wake-events :
      (now : ℕ) (raw : rpc.Event) (l : Loop D)
      → (on_wake b opts now (event (some raw)) l).1.session.events.queue
        ≡ after_recv l.session.events.queue
  unfolding on_wake handle_raw
  wake-events now raw l =
      ap (λ (r : Receiver). r.queue)
        (normalized-events now (normalize_result b raw (pop_event b l))
          (normalize_loop b raw (pop_event b l)))

  -- The end of the connection ends the wait.
  wake-closed :
      (now : ℕ) (reason : String) (l : Loop D)
      → TellsEnd
      → (on_wake b opts now (event (some (rpc.closed reason))) l).0 ≡ ok (exit 4)
  unfolding on_wake handle_raw handle_normalized handle
  wake-closed now reason l tells =
      rw
        (
          tells reason (event_context (pop_event b l).session _) (pop_event b l).session.world,
          handle_normalized,
        )
        refl

  abbrev queue_of : Loop D → List rpc.Event
  queue_of l = l.session.events.queue

  taken_queue :
      (p : Poll) (l : Loop D) (e : rpc.Event) (es : List rpc.Event)
      → queue_of l ≡ e ∷ es
      → queue_of (take_poll b p l) ≡ e ∷ (es ++ p.arrived)
  unfolding enqueue
  taken_queue p l e es q = rw q refl

  -- A poll of a queue that is not empty wakes the loop.
  poll_wakes :
      (d : Deadlines) (p : Poll) (l : Loop D) (e : rpc.Event) (es : List rpc.Event)
      → queue_of l ≡ e ∷ es
      → poll_step b opts d p l ≢ none
  unfolding poll_step
  poll_wakes d p l e es q h =
      elim (Option-cases
        (next_wake b.wait_policy.deadlines_first p.now d (take_poll b p l).session.events)) [
          | inl f ↦ full_wakes _ p.now d _ e (es ++ p.arrived) (taken_queue p l e es q) f
          | inr (wake, f) ↦ absurd (ground arith)
        ]

  -- Where the wait goes on without `follow`, the wake took the head of the queue.
  wake_takes :
      (now : ℕ) (l l' : Loop D) (e : rpc.Event) (es : List rpc.Event) (wake : Wake)
      → opts.follow ≡ false
      → TellsEnd
      → queue_of l ≡ e ∷ es
      → ((x : Option rpc.Event) → wake ≡ event x → x ≡ some e)
      → on_wake b opts now wake l ≡ (ok continue, l')
      → (queue_of l' ≡ es) × ((reason : String) → e ≢ rpc.closed reason)
  unfolding on_wake on_stall
  wake_takes now l l' e es (event none) once tells q head h =
      absurd (ground (arith, head none refl))
  wake_takes now l l' e es (event (some raw)) once tells q head h =
      let same : raw ≡ e = ground (arith, head (some raw) refl) in
      let moved : queue_of l' ≡ after_recv (queue_of l) =
        subst (λ (r : Result Step × Loop D). queue_of r.1 ≡ after_recv (queue_of l)) h
          (wake-events now raw l) in
      (moved ∙ ap after_recv q, alive raw same h)
    where
      alive :
          (raw : rpc.Event)
          → raw ≡ e
          → on_wake b opts now (event (some raw)) l ≡ (ok continue, l')
          → (reason : String) → e ≢ rpc.closed reason
      alive raw same h reason is_end =
          let ended : (on_wake b opts now (event (some raw)) l).0 ≡ ok (exit 4) =
            subst (λ x. (on_wake b opts now (event (some x)) l).0 ≡ ok (exit 4))
              (sym is_end ∙ sym same) (wake-closed now reason l tells) in
          let went : (on_wake b opts now (event (some raw)) l).0 ≡ ok continue =
            ap (λ (r : Result Step × Loop D). r.0) h in
          ground arith
  wake_takes now l l' e es reply once tells q head h = absurd (ground arith)
  wake_takes now l l' e es stall once tells q head h = absurd (ground arith)
  wake_takes now l l' e es timeout once tells q head h = absurd (ground arith)

  -- Where the wait goes on, the poll took the head of the queue, which was not the end.
  poll_takes :
      (d : Deadlines) (p : Poll) (l l' : Loop D) (e : rpc.Event) (es : List rpc.Event)
      → opts.follow ≡ false
      → TellsEnd
      → queue_of l ≡ e ∷ es
      → poll_step b opts d p l ≡ some (ok continue, l')
      → (queue_of l' ≡ es ++ p.arrived) × ((reason : String) → e ≢ rpc.closed reason)
  poll_takes d p l l' e es once tells q h =
      let (wake, woke, made) = poll_step-some b opts d p l h in
      let q' : queue_of (take_poll b p l) ≡ e ∷ (es ++ p.arrived) = taken_queue p l e es q in
      wake_takes p.now (take_poll b p l) l' e (es ++ p.arrived) wake once tells q'
        (λ x is_event. full_event _ p.now d _ e (es ++ p.arrived) x q' (woke ∙ ap some is_event))
        made

  -- A poll that wakes the loop ends the wait, unless the wait goes on and does not end behind it.
  poll_ends :
      (started : ℕ) (d : Deadlines) (p : Poll) (ps : List Poll) (l : Loop D)
      → poll_step b opts d p l ≢ none
      → ((l' : Loop D)
          → poll_step b opts d p l ≡ some (ok continue, l')
          → (wait_polls b opts started (deadlines_at b opts started p.now l') ps l').0 ≢ waiting)
      → (wait_polls b opts started d (p ∷ ps) l).0 ≢ waiting
  unfolding wait_polls
  poll_ends started d p ps l wakes goes_on = elim (Option-cases (poll_step b opts d p l)) [
    | inl e ↦ absurd (wakes e)
    | inr ((res, l'), e) ↦ elim (Result-cases res) [
      | inr (x, e₁) ↦ rw (e, e₁, wait_polls) (λ w. cc)
      | inl (step, e₁) ↦ elim (Step-cases step) [
        | inr (code, e₂) ↦ rw (e, e₁, e₂, wait_polls) (λ w. cc)
        | inl e₂ ↦ elim (Bool-cases (overflows b opts started p.now l')) [
          | inl over ↦ rw (e, e₁, e₂, over, wait_polls) (λ w. cc)
          | inr fits ↦
              rw (e, e₁, e₂, fits, wait_polls)
                (goes_on l' (e ∙ ap some (ap (λ r. (r, l')) (e₁ ∙ ap ok e₂))))
        ]
      ]
    ]
  ]

  -- One poll for each event up to the end is enough.
  polls_lost :
      (started : ℕ) (reason : String) (d : Deadlines) (es : List rpc.Event) (ps : List Poll)
      (after : List rpc.Event) (l : Loop D)
      → opts.follow ≡ false
      → TellsEnd
      → queue_of l ≡ es ++ rpc.closed reason ∷ after
      → length es < length ps
      → (wait_polls b opts started d ps l).0 ≢ waiting
  polls_lost started reason d es [] after l once tells q few = absurd (omega arith)
  polls_lost started reason d [] (p ∷ ps) after l once tells q few =
      poll_ends started d p ps l (poll_wakes d p l _ _ q)
        (λ l' e. absurd ((poll_takes d p l l' _ _ once tells q e).1 reason refl))
  polls_lost started reason d (x ∷ es) (p ∷ ps) after l once tells q few =
      poll_ends started d p ps l (poll_wakes d p l _ _ q) (λ l' e.
        polls_lost started reason (deadlines_at b opts started p.now l') es ps (after ++ p.arrived)
          l' once tells
          ((poll_takes d p l l' _ _ once tells q e).0
            ∙ append_assoc es (rpc.closed reason ∷ after) p.arrived)
          (omega arith))

  -- A wait without `follow` whose queue holds what the reader of a connection left when it stopped is over
  -- after one poll for each queued event at the latest, for a backend that makes the end of the session of the end of
  -- the connection: a connection that is lost never leaves the wait hanging, whatever frames came before. The
  -- panic of a deadline that overflows ends it too.
  pub wait_loop-reader :
      (p : rpc.Protocol) (frames : List rpc.Frame) (h : rpc.Hub) (now : ℕ)
      (pending : Option (PendingReply D)) (polls : List Poll) (s : Session)
      → opts.follow ≡ false
      → TellsEnd
      → All IsMessage h.events
      → s.events.queue ≡ (rpc.reader p frames h).events
      → length (rpc.reader p frames h).events ≤ length polls
      → (wait_loop b opts now pending polls s).0 ≢ waiting
  wait_loop-reader p frames h now pending polls s once tells messages q few =
      let ((es, reason, _, e), _) = reader_closes_once p frames h messages in
      wait_loop_rule b opts (λ o. o.0 ≢ waiting) now pending polls s (λ _ w. cc)
        (polls_lost now reason _ es polls [] (start_loop b now pending s) once tells (q ∙ e)
          (few_polls es reason e few))
    where
      few_polls :
          (es : List rpc.Event) (reason : String)
          → (rpc.reader p frames h).events ≡ es ++ rpc.closed reason ∷ []
          → length (rpc.reader p frames h).events ≤ length polls
          → length es < length polls
      few_polls es reason e few = omega (arith, length-snoc es (rpc.closed reason), ap length e)
