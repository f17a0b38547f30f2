-- ===== src/Session/Selection/Codes.antt =====
-- The exit codes of `reply_to_only_request` of src/core/session.rs.
use codex_bridge.Common.{
  ◌≡◌, ◌≤◌, inl, inr, ℕ, none, List, [], ◌∷◌, Result, ok, err, Result-cases, Bool-cases, List-cases,
  if_both, leb,
}
use codex_bridge.Rpc as rpc
use codex_bridge.Backend.{Backend, WaitFlags}
use codex_bridge.Session.Wake.{Poll}
use codex_bridge.Session.Handle.{
  Session, Loop, ReplyPayload, Step, exit, continue, answer_request, on_world,
}
use codex_bridge.Session.Wait.{Outcome, failed, handle_raw, normalize_result, normalize_loop}
use codex_bridge.Session.Wait.Ends.{
  AllowedExit, IsAllowed, wait_loop-IsAllowed, normalized-AllowedExit,
}
use codex_bridge.Session.Wait.Overflow.{IsBy}
use codex_bridge.Session.Selection.{
  Picked, conclude, only_request, after_answer, replay, after_replay, window, pick_raw, pick_queued,
  set_queue, poll_events, after_subscribe, reply_to_only_request,
}

-- No poll comes behind the instant `t`.
module _ {Run D : Type 0} (b : Backend Run D) (opts : WaitFlags) (t : ℕ) where
  abbrev IsCodedStep : Result Step → Type 0
  IsCodedStep (ok (exit code)) = AllowedExit b opts code
  IsCodedStep _ = Unit

  raw-IsCodedStep :
      (now : ℕ) (raw : rpc.Event) (l : Loop D) (r : Result Step)
      → (handle_raw b opts now raw l).0 ≡ r
      → IsCodedStep r
  unfolding handle_raw
  raw-IsCodedStep now raw l (err e) h = tt
  raw-IsCodedStep now raw l (ok continue) h = tt
  raw-IsCodedStep now raw l (ok (exit code)) h =
      normalized-AllowedExit b opts now (normalize_result b raw l) (normalize_loop b raw l) code h

  replay-IsCodedStep :
      (now : ℕ) (raws : List rpc.Event) (l : Loop D) → IsCodedStep (replay b opts now raws l).0
  unfolding replay
  replay-IsCodedStep now [] l = tt
  replay-IsCodedStep now (raw ∷ raws) l = elim (Result-cases (handle_raw b opts now raw l).0) [
    | inr (x, e) ↦ rw (e, replay) tt
    | inl (exit code, e) ↦ rw (e, replay) (raw-IsCodedStep now raw l (ok (exit code)) e)
    | inl (continue, e) ↦
        rw (e, replay)
          (replay-IsCodedStep now raws (record (handle_raw b opts now raw l).1 { reply = none }))
  ]

  after_replay-IsAllowed :
      (now : ℕ) (polls : List Poll) (r : Result Step) (l : Loop D)
      → now ≤ t
      → IsBy t polls
      → IsCodedStep r
      → IsAllowed b opts t (after_replay b opts now polls (r, l)).0
  unfolding after_replay
  after_replay-IsAllowed now polls (err e) l soon by h = tt
  after_replay-IsAllowed now polls (ok (exit code)) l soon by h = h
  after_replay-IsAllowed now polls (ok continue) l soon by h =
      wait_loop-IsAllowed b opts t now none polls l.session soon by

  after_answer-IsAllowed :
      (now : ℕ) (polls : List Poll) (raws : List rpc.Event) (l : Loop D) (r : Result (Unit {0}))
      (s : Session)
      → now ≤ t
      → IsBy t polls
      → IsAllowed b opts t (after_answer b opts now polls raws l (r, s)).0
  unfolding after_answer
  after_answer-IsAllowed now polls raws l (err e) s soon by = tt
  after_answer-IsAllowed now polls raws l (ok u) s soon by =
      after_replay-IsAllowed now polls
        (replay b opts now raws (record l { session = s; reply = none })).0
        (replay b opts now raws (record l { session = s; reply = none })).1 soon by
        (replay-IsCodedStep now raws (record l { session = s; reply = none }))

  conclude-IsAllowed :
      (now : ℕ) (payload : ReplyPayload D) (polls : List Poll) (p : Picked D)
      → now ≤ t
      → IsBy t polls
      → IsAllowed b opts t (conclude b opts now payload polls p).0
  unfolding conclude
  conclude-IsAllowed now payload polls p soon by =
      elim (Result-cases (only_request b p.loop.session p.requests p.resolved)) [
        | inr (x, e) ↦ rw (e, conclude) tt
        | inl ((id, method), e) ↦
            rw (e, conclude)
              (after_answer-IsAllowed now polls p.notifications p.loop
                (answer_request b id method payload p.loop.session).0
                (answer_request b id method payload p.loop.session).1 soon by)
      ]

  window-IsAllowed :
      (until : ℕ) (payload : ReplyPayload D) (polls : List Poll) (p : Picked D)
      → IsBy t polls
      → IsAllowed b opts t (window b opts until payload polls p).0
  unfolding window
  window-IsAllowed until payload [] p by = tt
  window-IsAllowed until payload (poll ∷ polls) p by = elim (Bool-cases (leb until poll.now)) [
    | inl over ↦
        let q = set_queue b [] (poll_events b poll p) in
        let raws = (poll_events b poll p).loop.session.events.queue in
        elim (Result-cases (pick_queued b opts poll.now raws q).0) [
          | inr (x, e) ↦ rw (over, e, window) tt
          | inl (u, e) ↦
              rw (over, e, window)
                (conclude-IsAllowed poll.now payload polls (pick_queued b opts poll.now raws q).1
                  by.0 by.1)
        ]
    | inr open_yet ↦ elim (List-cases (poll_events b poll p).loop.session.events.queue) [
      | inl empty ↦
          rw (open_yet, empty, window)
            (if_both (λ (o : Outcome × Loop D). IsAllowed b opts t o.0)
              (poll_events b poll p).loop.session.events.ended
              (failed "event stream ended unexpectedly", (poll_events b poll p).loop)
              (window b opts until payload polls (poll_events b poll p)) tt
              (window-IsAllowed until payload polls (poll_events b poll p) by.1))
      | inr (raw, rest, queued) ↦
          let q = set_queue b rest (poll_events b poll p) in
          elim (Result-cases (pick_raw b opts poll.now raw q).0) [
            | inr (x, e) ↦ rw (open_yet, queued, e, window) tt
            | inl (u, e) ↦
                rw (open_yet, queued, e, window)
                  (window-IsAllowed until payload polls (pick_raw b opts poll.now raw q).1 by.1)
          ]
    ]
  ]

  subscribe-IsAllowed :
      (now : ℕ) (payload : ReplyPayload D) (polls : List Poll) (r : Result (Unit {0})) (s : Session)
      → now ≤ t
      → IsBy t polls
      → IsAllowed b opts t (after_subscribe b opts now payload polls (r, s)).0
  unfolding after_subscribe
  subscribe-IsAllowed now payload polls (err e) s soon by = tt
  subscribe-IsAllowed now payload polls (ok u) s soon by = window-IsAllowed _ payload polls _ by

  -- A reply to the only request ends with the codes of a wait.
  pub reply_to_only_request-IsAllowed :
      (now : ℕ) (payload : ReplyPayload D) (polls : List Poll) (s : Session)
      → now ≤ t
      → IsBy t polls
      → IsAllowed b opts t (reply_to_only_request b opts now payload polls s).0
  unfolding reply_to_only_request
  reply_to_only_request-IsAllowed now payload polls s soon by =
      subscribe-IsAllowed now payload polls (on_world (b.subscribe s.thread_id) s).0
        (on_world (b.subscribe s.thread_id) s).1 soon by
