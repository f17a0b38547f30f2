-- ===== src/Session/Selection/Window.antt =====
-- The selection window of src/core/session.rs: what it collects, and what it writes.
use codex_bridge.Common.{
  Bool, filter, ap, ℕ, ◌<◌, ◌≡◌, ◌↔◌, refl, inl, inr, false, not, String, List, [], ◌∷◌, ◌++◌,
  arith, Result, ok, err, any, All, is_some_and, ◌==◌, Bool-cases, Result-cases, List-cases,
  if_both, leb, ◌∙◌,
}
use codex_bridge.Json.{Value}
use codex_bridge.Rpc as rpc
use codex_bridge.Backend.{
  Backend, Event, ignore, closed, request, update, turn_completed, request_resolved, Request,
  WaitFlags,
}
use codex_bridge.Session.Wake.{Poll}
use codex_bridge.Session.Handle.{Session, Loop, ReplyPayload, event_context}
use codex_bridge.Session.Wait.{Outcome, waiting, exited, failed, panicked}
use codex_bridge.Session.Wait.Replies.{IsQuiet}
use codex_bridge.Session.Selection.{
  Picked, is_seen, select_result, select_picked, pick_request, pick_raw, pick_normalized,
  pick_event, pick_queued, only_request, window, poll_events, set_queue,
}

module _ {Run D : Type 0} (b : Backend Run D) where
  -- The one request that was collected is chosen, unless it was resolved meanwhile; none and several
  -- are errors.
  pub only_request_iff :
      (s : Session) (requests : List (Value × String)) (resolved : List Value) (id : Value)
      (method : String)
      → (only_request b s requests resolved ≡ ok (id, method)) ↔ (
          (requests ≡ (id, method) ∷ [])
          × (any (λ seen. b.same_request_id seen id) resolved ≡ false))
  unfolding only_request
  only_request_iff s [] resolved id method = ground arith
  only_request_iff s ((i, m) ∷ []) resolved id method = ground arith
  only_request_iff s (r ∷ q ∷ rest) resolved id method = ground arith

  event-frames :
      (opts : WaitFlags) (now : ℕ) (ev : Event) (p : Picked D)
      → (pick_event b opts now ev p).1.loop.session.world.sent ≡ p.loop.session.world.sent
  unfolding pick_event pick_request
  event-frames opts now (request r) p = ground arith
  event-frames opts now ignore p = refl
  event-frames opts now (closed reason) p = refl
  event-frames opts now (update u) p = ground arith
  event-frames opts now (turn_completed c) p = refl
  event-frames opts now (request_resolved id log) p = ground arith

  normalized-frames :
      (opts : WaitFlags) (now : ℕ) (r : Result Event) (p : Picked D)
      → (pick_normalized b opts now r p).1.loop.session.world.sent ≡ p.loop.session.world.sent
  unfolding pick_normalized
  normalized-frames opts now (err e) p = refl
  normalized-frames opts now (ok ev) p = event-frames opts now ev p

  -- Two of the collected requests are never the same, as the backend compares them.
  abbrev pub Distinct : List (Value × String) → Type 0
  Distinct [] = Unit
  Distinct (r ∷ rest) =
      All (λ (q : Value × String). b.same_request_id r.0 q.0 ≡ false) rest × Distinct rest

  All-concat :
      (id : Value) (xs : List (Value × String)) (r : Value × String)
      → All (λ (q : Value × String). b.same_request_id id q.0 ≡ false) xs
      → b.same_request_id id r.0 ≡ false
      → All (λ (q : Value × String). b.same_request_id id q.0 ≡ false) (xs ++ r ∷ [])
  All-concat id [] r h k = (k, tt)
  All-concat id (x ∷ xs) r h k = (h.0, All-concat id xs r h.1 k)

  Distinct-concat :
      (xs : List (Value × String)) (r : Value × String)
      → Distinct xs
      → is_seen b r.0 xs ≡ false
      → Distinct (xs ++ r ∷ [])
  Distinct-concat [] r h k = (tt, tt)
  Distinct-concat (x ∷ xs) r h k =
      (All-concat x.0 xs r h.0 (ground arith), Distinct-concat xs r h.1 (ground arith))

  request-Distinct :
      (r : Request) (p : Picked D) → Distinct p.requests → Distinct (pick_request b r p).requests
  unfolding pick_request
  request-Distinct r p h =
      elim (Bool-cases (is_some_and (λ t. not (t == p.loop.session.thread_id)) r.thread_id)) [
        | inl foreign ↦ rw foreign h
        | inr own ↦ elim (Bool-cases (is_seen b r.id p.requests)) [
          | inl seen ↦ rw (own, seen) h
          | inr new ↦ rw (own, new) (Distinct-concat p.requests (r.id, r.method) h new)
        ]
      ]

  normalized-Distinct :
      (opts : WaitFlags) (now : ℕ) (r : Result Event) (p : Picked D)
      → Distinct p.requests
      → Distinct (pick_normalized b opts now r p).1.requests
  unfolding pick_normalized pick_event
  normalized-Distinct opts now (err e) p h = h
  normalized-Distinct opts now (ok (request r)) p h = request-Distinct r p h
  normalized-Distinct opts now (ok ignore) p h = h
  normalized-Distinct opts now (ok (closed reason)) p h = h
  normalized-Distinct opts now (ok (update u)) p h = h
  normalized-Distinct opts now (ok (turn_completed c)) p h = h
  normalized-Distinct opts now (ok (request_resolved id log)) p h = h

  raw-Distinct :
      (opts : WaitFlags) (now : ℕ) (raw : rpc.Event) (p : Picked D)
      → Distinct p.requests
      → Distinct (pick_raw b opts now raw p).1.requests
  unfolding pick_raw
  raw-Distinct opts now raw p h = elim (Bool-cases (b.defer_during_selection raw)) [
    | inl deferred ↦ rw deferred h
    | inr now_read ↦
        rw now_read (normalized-Distinct opts now (select_result b raw p) (select_picked b raw p) h)
  ]

  -- Whatever events a window sees, in whatever order, no two requests that it has collected are the
  -- same.
  pub pick_queued-Distinct :
      (opts : WaitFlags) (now : ℕ) (raws : List rpc.Event) (p : Picked D)
      → Distinct p.requests
      → Distinct (pick_queued b opts now raws p).1.requests
  unfolding pick_queued
  pick_queued-Distinct opts now [] p h = h
  pick_queued-Distinct opts now (raw ∷ rest) p h =
      elim (Result-cases (pick_raw b opts now raw p).0) [
        | inr (x, e) ↦ rw (e, pick_queued) (raw-Distinct opts now raw p h)
        | inl (u, e) ↦
            rw (e, pick_queued)
              (pick_queued-Distinct opts now rest (pick_raw b opts now raw p).1
                (raw-Distinct opts now raw p h))
      ]

  pub raw-frames :
      (counts : Value → Bool) (opts : WaitFlags) (now : ℕ) (raw : rpc.Event) (p : Picked D)
      → IsQuiet b counts
      → filter counts (pick_raw b opts now raw p).1.loop.session.world.sent
        ≡ filter counts p.loop.session.world.sent
  unfolding pick_raw event_context
  raw-frames counts opts now raw p quiet = elim (Bool-cases (b.defer_during_selection raw)) [
    | inl deferred ↦ rw deferred refl
    | inr now_read ↦ rw now_read (
        ap (filter counts)
          (normalized-frames opts now (select_result b raw p) (select_picked b raw p))
        ∙ quiet raw (event_context p.loop.session false) p.loop.session.world)
  ]

  abbrev pub IsUnfinished : Outcome → Type 0
  IsUnfinished waiting = Unit
  IsUnfinished (failed e) = Unit
  IsUnfinished (exited code) = ⊥
  IsUnfinished panicked = ⊥

  -- Before the window's ten seconds are over no frame of a kind that the backend does not write while it
  -- reads is written to the socket, whatever the flags are and whatever arrives; and the command does not
  -- exit by a code, nor by a panic.
  pub window_silent :
      (counts : Value → Bool) (opts : WaitFlags) (until : ℕ) (payload : ReplyPayload D)
      (polls : List Poll) (p : Picked D)
      → IsQuiet b counts
      → All (λ (poll : Poll). poll.now < until) polls
      → IsUnfinished (window b opts until payload polls p).0
        × (filter counts (window b opts until payload polls p).1.session.world.sent
            ≡ filter counts p.loop.session.world.sent)
  unfolding window
  window_silent counts opts until payload [] p quiet early = (tt, refl)
  window_silent counts opts until payload (poll ∷ polls) p quiet early =
      elim (Bool-cases (leb until poll.now)) [
        | inl over ↦ absurd (ground arith)
        | inr open_yet ↦ elim (List-cases (poll_events b poll p).loop.session.events.queue) [
          | inl empty ↦
              rw (open_yet, empty, window)
                (if_both
                  (λ (o : Outcome × Loop D).
                    IsUnfinished o.0
                    × (filter counts o.1.session.world.sent
                        ≡ filter counts p.loop.session.world.sent))
                  (poll_events b poll p).loop.session.events.ended
                  (failed "event stream ended unexpectedly", (poll_events b poll p).loop)
                  (window b opts until payload polls (poll_events b poll p)) (tt, refl)
                  (window_silent counts opts until payload polls (poll_events b poll p) quiet
                    early.1))
          | inr (raw, rest, queued) ↦
              let q = set_queue b rest (poll_events b poll p) in
              let same = raw-frames counts opts poll.now raw q quiet in
              elim (Result-cases (pick_raw b opts poll.now raw q).0) [
                | inr (x, e) ↦ rw (open_yet, queued, e, window) (tt, same)
                | inl (u, e) ↦
                    let (un, s) =
                      window_silent counts opts until payload polls
                        (pick_raw b opts poll.now raw q).1 quiet early.1 in
                    rw (open_yet, queued, e, window) (un, s ∙ same)
              ]
        ]
      ]
