-- ===== src/Session/Selection/Answer.antt =====
-- `reply_to_only_request` of src/core/session.rs behind its window: what the whole rest of the command writes.
use codex_bridge.Common.{
  Bool, filter, filter_cons, ◌++◌, ℕ, ◌≡◌, refl, ◌∙◌, ap, ◌⊎◌, inl, inr, false, String, none, List,
  [], ◌∷◌, arith, Result, ok, err, Result-cases, Option-cases, Bool-cases, List-cases, subst,
  if_both, leb,
}
use codex_bridge.Json.{Value}
use codex_bridge.Rpc as rpc
use codex_bridge.Connection.{result_frame, respond_result}
use codex_bridge.Backend.{Backend, WaitFlags}
use codex_bridge.Session.Wake.{Poll}
use codex_bridge.Session.Handle.{
  Session, Loop, ReplyPayload, Step, exit, continue, response_body, answer_request,
}
use codex_bridge.Session.Wait.{Outcome, failed, wait_loop, handle_raw}
use codex_bridge.Session.Wait.Replies.{
  IsQuiet, counted, AtMostOnce, unanswered, answered, wait_loop-AtMostOnce, raw-AtMostOnce,
}
use codex_bridge.Session.Selection.{
  Picked, conclude, only_request, after_answer, replay, after_replay, window, pick_raw, pick_queued,
  set_queue, poll_events,
}
use codex_bridge.Session.Selection.Window.{raw-frames}

-- The states of a window that begins in `p` with a schedule, each with the polls that are left: a poll's events arrive,
-- and at that poll the loop takes the next event, or all that are queued at its end.
pub data Reached {Run D : Type 0} (b : Backend Run D) (opts : WaitFlags) (polls : List Poll)
    (p : Picked D) : List Poll → Picked D → Type 0 where
  at_start : Reached b opts polls p polls p
  taken :
      {q : Picked D} {rest : List Poll} (poll : Poll) (raw : rpc.Event) (behind : List rpc.Event)
      → Reached b opts polls p (poll ∷ rest) q
      → (poll_events b poll q).loop.session.events.queue ≡ raw ∷ behind
      → Reached b opts polls p rest
          (pick_raw b opts poll.now raw (set_queue b behind (poll_events b poll q))).1
  idle :
      {q : Picked D} {rest : List Poll} (poll : Poll)
      → Reached b opts polls p (poll ∷ rest) q
      → (poll_events b poll q).loop.session.events.queue ≡ []
      → Reached b opts polls p rest (poll_events b poll q)
  drained :
      {q : Picked D} {rest : List Poll} (poll : Poll)
      → Reached b opts polls p (poll ∷ rest) q
      → Reached b opts polls p rest
          (pick_queued b opts poll.now
            (poll_events b poll q).loop.session.events.queue
            (set_queue b [] (poll_events b poll q))).1

-- `counts` tells which frames are counted.
module _ {Run D : Type 0} (b : Backend Run D) (counts : Value → Bool) where
  -- Nothing more was counted than `frames`, and no reply is pending.
  abbrev IsStill : List Value → Loop D → Type 0
  IsStill frames l = AtMostOnce b counts frames none l

  still-frames : (frames : List Value) (l : Loop D) → IsStill frames l → counted b counts l ≡ frames
  still-frames frames l (unanswered e q) = e
  still-frames frames l (answered p id method body e s x f q) = absurd (ground arith)

  -- The answer to one request, or nothing.
  answer-frames :
      (id : Value) (method : String) (payload : ReplyPayload D) (s : Session)
      → ((answer_request b id method payload s).1.world.sent ≡ s.world.sent)
        ⊎ ((body : Value) × (response_body b method payload ≡ ok body)
            × ((answer_request b id method payload s).1.world.sent
                ≡ result_frame id body ∷ s.world.sent))
  unfolding answer_request respond_result
  answer-frames id method payload s = elim (Result-cases (response_body b method payload)) [
    | inr (x, e) ↦ inl (ground arith)
    | inl (body, e) ↦
        elim (Option-cases (s.world.outside.accepts (result_frame id body ∷ s.world.sent))) [
          | inl f ↦ inr (body, e, ground arith)
          | inr (x, f) ↦ inl (ground arith)
        ]
  ]

  module _ (quiet : IsQuiet b counts) (opts : WaitFlags) (manual : opts.auto_decline ≡ false) where
    loop-frames :
        (now : ℕ) (polls : List Poll) (r : Result Step) (l : Loop D)
        → counted b counts (after_replay b opts now polls (r, l)).1 ≡ counted b counts l
    unfolding after_replay
    loop-frames now polls (err e) l = refl
    loop-frames now polls (ok (exit code)) l = refl
    loop-frames now polls (ok continue) l =
        still-frames (counted b counts l) (wait_loop b opts now none polls l.session).1
          (wait_loop-AtMostOnce b counts quiet opts manual now none polls l.session)

    replay-frames :
        (now : ℕ) (raws : List rpc.Event) (l : Loop D)
        → l.reply ≡ none
        → counted b counts (replay b opts now raws l).1 ≡ counted b counts l
    unfolding replay
    replay-frames now [] l q = refl
    replay-frames now (raw ∷ raws) l q =
        let e : counted b counts (handle_raw b opts now raw l).1 ≡ counted b counts l =
          still-frames _ _ (
            raw-AtMostOnce b counts quiet opts manual (counted b counts l) none now raw l
              (unanswered refl (inl q))) in
        elim (Result-cases (handle_raw b opts now raw l).0) [
          | inr (x, f) ↦ rw (f, replay) e
          | inl (exit code, f) ↦ rw (f, replay) e
          | inl (continue, f) ↦
              rw (f, replay)
                (replay-frames now raws (record (handle_raw b opts now raw l).1 { reply = none })
                    refl
                  ∙ e)
        ]

    after-frames :
        (now : ℕ) (polls : List Poll) (raws : List rpc.Event) (l : Loop D) (r : Result (Unit {0}))
        (s : Session)
        → counted b counts (after_answer b opts now polls raws l (r, s)).1
          ≡ filter counts s.world.sent
    unfolding after_answer
    after-frames now polls raws l (err e) s = refl
    after-frames now polls raws l (ok _) s =
        loop-frames now polls (replay b opts now raws (record l { session = s; reply = none })).0
          (replay b opts now raws (record l { session = s; reply = none })).1
        ∙ replay-frames now raws (record l { session = s; reply = none }) refl

    -- The counted frames after the command are those before, or one more: the answer to the request that `only_request`
    -- chooses in a state that the window reaches.
    abbrev pub OneAnswer : List Poll → Picked D → ReplyPayload D → List Value → List Value → Type 0
    OneAnswer schedule start payload before after =
        (after ≡ before)
        ⊎ ((q : Picked D) × (rest : List Poll) × (id : Value) × (method : String) × (body : Value)
            × Reached b opts schedule start rest q
            × (only_request b q.loop.session q.requests q.resolved ≡ ok (id, method))
            × (response_body b method payload ≡ ok body)
            × (after ≡ filter counts (result_frame id body ∷ []) ++ before))

    answered-OneAnswer :
        (schedule rest : List Poll) (start q : Picked D) (id : Value) (method : String)
        (payload : ReplyPayload D) (after : List Value)
        → Reached b opts schedule start rest q
        → only_request b q.loop.session q.requests q.resolved ≡ ok (id, method)
        → after ≡ filter counts (answer_request b id method payload q.loop.session).1.world.sent
        → OneAnswer schedule start payload (counted b counts q.loop) after
    answered-OneAnswer schedule rest start q id method payload after way chosen a =
        elim (answer-frames id method payload q.loop.session) [
          | inl same ↦ inl (a ∙ ap (filter counts) same)
          | inr (body, shaped, written) ↦ inr (
            q,
            rest,
            id,
            method,
            body,
            way,
            chosen,
            shaped,
            a
                ∙ ap (filter counts) written
                ∙ filter_cons counts (result_frame id body) q.loop.session.world.sent,
          )
        ]

    conclude-OneAnswer :
        (schedule : List Poll) (start : Picked D) (now : ℕ) (payload : ReplyPayload D)
        (polls : List Poll) (p : Picked D)
        → Reached b opts schedule start polls p
        → OneAnswer schedule start payload
            (counted b counts p.loop)
            (counted b counts (conclude b opts now payload polls p).1)
    unfolding conclude
    conclude-OneAnswer schedule start now payload polls p way =
        elim (Result-cases (only_request b p.loop.session p.requests p.resolved)) [
          | inr (x, e) ↦ rw (e, conclude) (inl refl)
          | inl ((id, method), e) ↦
              rw (e, conclude)
                (answered-OneAnswer schedule polls start p id method payload _ way e (
                  after-frames now polls p.notifications p.loop
                    (answer_request b id method payload p.loop.session).0
                    (answer_request b id method payload p.loop.session).1))
        ]

    queued-frames :
        (now : ℕ) (raws : List rpc.Event) (p : Picked D)
        → counted b counts (pick_queued b opts now raws p).1.loop ≡ counted b counts p.loop
    unfolding pick_queued
    queued-frames now [] p = refl
    queued-frames now (raw ∷ raws) p = elim (Result-cases (pick_raw b opts now raw p).0) [
      | inr (x, e) ↦ rw (e, pick_queued) (raw-frames b counts opts now raw p quiet)
      | inl (u, e) ↦
          rw (e, pick_queued)
            (queued-frames now raws (pick_raw b opts now raw p).1
              ∙ raw-frames b counts opts now raw p quiet)
    ]

    concluded :
        (schedule : List Poll) (start : Picked D) (now : ℕ) (payload : ReplyPayload D)
        (polls : List Poll) (p : Picked D) (before : List Value)
        → Reached b opts schedule start polls p
        → counted b counts p.loop ≡ before
        → OneAnswer schedule start payload before
            (counted b counts (conclude b opts now payload polls p).1)
    concluded schedule start now payload polls p before way e =
        subst
          (λ x.
            OneAnswer schedule start payload x
              (counted b counts (conclude b opts now payload polls p).1))
          e (conclude-OneAnswer schedule start now payload polls p way)

    onward-OneAnswer :
        (schedule : List Poll) (start : Picked D) (until : ℕ) (payload : ReplyPayload D)
        (polls : List Poll) (p : Picked D)
        → Reached b opts schedule start polls p
        → OneAnswer schedule start payload
            (counted b counts p.loop)
            (counted b counts (window b opts until payload polls p).1)
    unfolding window
    onward-OneAnswer schedule start until payload [] p way = inl refl
    onward-OneAnswer schedule start until payload (poll ∷ polls) p way =
        elim (Bool-cases (leb until poll.now)) [
          | inl over ↦
              let q = set_queue b [] (poll_events b poll p) in
              let raws = (poll_events b poll p).loop.session.events.queue in
              let same : counted b counts (pick_queued b opts poll.now raws q).1.loop
                  ≡ counted b counts p.loop =
                queued-frames poll.now raws q in
              elim (Result-cases (pick_queued b opts poll.now raws q).0) [
                | inr (x, e) ↦ rw (over, e, window) (inl same)
                | inl (u, e) ↦
                    rw (over, e, window)
                      (concluded schedule start poll.now payload polls
                        (pick_queued b opts poll.now raws q).1 (counted b counts p.loop)
                        (drained poll way) same)
              ]
          | inr open_yet ↦ elim (List-cases (poll_events b poll p).loop.session.events.queue) [
            | inl empty ↦
                rw (open_yet, empty, window)
                  (if_both
                    (λ (o : Outcome × Loop D).
                      OneAnswer schedule start payload (counted b counts p.loop)
                        (counted b counts o.1))
                    (poll_events b poll p).loop.session.events.ended
                    (failed "event stream ended unexpectedly", (poll_events b poll p).loop)
                    (window b opts until payload polls (poll_events b poll p)) (inl refl)
                    (onward-OneAnswer schedule start until payload polls (poll_events b poll p)
                      (idle poll way empty)))
            | inr (raw, rest, queued) ↦
                let q = set_queue b rest (poll_events b poll p) in
                let same : counted b counts (pick_raw b opts poll.now raw q).1.loop
                    ≡ counted b counts p.loop =
                  raw-frames b counts opts poll.now raw q quiet in
                elim (Result-cases (pick_raw b opts poll.now raw q).0) [
                  | inr (x, e) ↦ rw (open_yet, queued, e, window) (inl same)
                  | inl (u, e) ↦
                      rw (open_yet, queued, e, window)
                        (subst
                          (λ before. OneAnswer schedule start payload before (
                            counted b counts
                              (window b opts until payload polls
                                (pick_raw b opts poll.now raw q).1).1))
                          same
                          (onward-OneAnswer schedule start until payload polls
                            (pick_raw b opts poll.now raw q).1 (taken poll raw rest way queued)))
                ]
          ]
        ]

    -- From its window to the end of the wait behind it, a reply to the only request writes at most one frame of
    -- a kind that the backend does not write while it reads, whatever arrives and whenever: the answer, made from the
    -- payload, to the request that `only_request` chooses from those that the window has collected. This holds without
    -- `auto_decline`.
    pub window-OneAnswer :
        (until : ℕ) (payload : ReplyPayload D) (polls : List Poll) (p : Picked D)
        → OneAnswer polls p payload
            (counted b counts p.loop)
            (counted b counts (window b opts until payload polls p).1)
    window-OneAnswer until payload polls p = onward-OneAnswer polls p until payload polls p at_start
