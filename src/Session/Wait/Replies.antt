-- ===== src/Session/Wait/Replies.antt =====
-- What the wait loop of src/core/session.rs writes to the socket.
use codex_bridge.Common.{
  Bool, filter, filter_cons, ◌++◌, [], ℕ, ◌≡◌, refl, ◌⊎◌, inl, inr, true, false, String, Option,
  none, some, List, ◌∷◌, arith, Result, ok, err, ap, ◌∙◌, is_some,
}
use codex_bridge.Json.{Value}
use codex_bridge.Rpc as rpc
use codex_bridge.Connection.{World, result_frame}
use codex_bridge.Backend.{Backend, Event, EventContext, WaitFlags}
use codex_bridge.Session.Wake.{Poll, Wake, event, reply, stall, timeout}
use codex_bridge.Session.Handle.{Session, Loop, PendingReply, response_body, handle, event_context}
use codex_bridge.Session.Handle.Frames.{handle_frames, handle-reply}
use codex_bridge.Session.Wait.Rules.{wait_polls_rule, wait_loop_rule, All-Unit}
use codex_bridge.Session.Wait.{
  handle_normalized, normalize_result, normalize_loop, pop_event, on_wake, handle_raw, wait_loop,
}

-- `counts` tells which frames are counted.
module _ {Run D : Type 0} (b : Backend Run D) (counts : Value → Bool) where
  abbrev pub counted : Loop D → List Value
  counted l = filter counts l.session.world.sent

  -- The backend writes no such frame while it reads an event.
  abbrev pub IsQuiet : Type 0
  IsQuiet =
      (raw : rpc.Event) (c : EventContext) (w : World)
      → filter counts (b.normalize raw c w).1.sent ≡ filter counts w.sent

  -- Of the counted frames `frames` came before, and `pending` was the reply: it is unanswered, or its one answer
  -- heads them.
  pub data AtMostOnce (frames : List Value) (pending : Option (PendingReply D)) (l : Loop D)
      : Type 0 where
    unanswered :
        counted l ≡ frames → (l.reply ≡ pending) ⊎ (l.reply ≡ none) → AtMostOnce frames pending l
    answered :
        (p : PendingReply D) (id : Value) (method : String) (body : Value)
        → pending ≡ some p
        → b.same_request_id p.id id ≡ true
        → response_body b method p.payload ≡ ok body
        → counted l ≡ filter counts (result_frame id body ∷ []) ++ frames
        → l.reply ≡ none
        → AtMostOnce frames pending l

  keep_AtMostOnce :
      (frames : List Value) (pending : Option (PendingReply D)) (l l' : Loop D)
      → counted l' ≡ counted l
      → (l'.reply ≡ l.reply) ⊎ (l'.reply ≡ none)
      → AtMostOnce frames pending l
      → AtMostOnce frames pending l'
  keep_AtMostOnce frames pending l l' same after (unanswered e q) = unanswered (cc) (ground arith)
  keep_AtMostOnce frames pending l l' same after (answered p id method body e s x f q) =
      answered p id method body e s x (cc) (ground arith)

  spend_AtMostOnce :
      (frames : List Value) (pending : Option (PendingReply D)) (l l' : Loop D) (p : PendingReply D)
      (id : Value) (method : String) (body : Value)
      → l.reply ≡ some p
      → b.same_request_id p.id id ≡ true
      → response_body b method p.payload ≡ ok body
      → l'.session.world.sent ≡ result_frame id body ∷ l.session.world.sent
      → l'.reply ≡ none
      → AtMostOnce frames pending l
      → AtMostOnce frames pending l'
  spend_AtMostOnce frames pending l l' p id method body e s x f q (unanswered e' q') =
      answered p id method body (ground arith) s x
        (ap (filter counts) f
          ∙ filter_cons counts (result_frame id body) l.session.world.sent
          ∙ ap (λ rest. filter counts (result_frame id body ∷ []) ++ rest) e')
        q
  spend_AtMostOnce frames pending l l' p id method body e s x f q (answered _ _ _ _ _ _ _ _ q') =
      absurd (ground arith)

  handle-AtMostOnce :
      (frames : List Value) (pending : Option (PendingReply D)) (opts : WaitFlags) (now : ℕ)
      (ev : Event) (l : Loop D)
      → opts.auto_decline ≡ false
      → AtMostOnce frames pending l
      → AtMostOnce frames pending (handle b opts now ev l).1
  handle-AtMostOnce frames pending opts now ev l manual before =
      elim (handle_frames b opts now ev l) [
        | inl same ↦
            keep_AtMostOnce frames pending l _ (ap (filter counts) same)
              (handle-reply b opts now ev l) before
        | inr (r, e, a) ↦ elim a.kind [
          | inl (p, body, waits, same, shaped, framed, gone) ↦
              spend_AtMostOnce frames pending l _ p r.id r.method body waits same shaped
                (a.written ∙ ap (λ f. f ∷ l.session.world.sent) framed) gone before
          | inr (other, auto, framed) ↦ absurd (ground arith)
        ]
      ]

  module _ (quiet : IsQuiet) (opts : WaitFlags) (manual : opts.auto_decline ≡ false) where
    normalized-AtMostOnce :
        (frames : List Value) (pending : Option (PendingReply D)) (now : ℕ) (r : Result Event)
        (l : Loop D)
        → AtMostOnce frames pending l
        → AtMostOnce frames pending (handle_normalized b opts now r l).1
    unfolding handle_normalized
    normalized-AtMostOnce frames pending now (err e) l before = before
    normalized-AtMostOnce frames pending now (ok ev) l before =
        handle-AtMostOnce frames pending opts now ev l manual before

    pub raw-AtMostOnce :
        (frames : List Value) (pending : Option (PendingReply D)) (now : ℕ) (raw : rpc.Event)
        (l : Loop D)
        → AtMostOnce frames pending l
        → AtMostOnce frames pending (handle_raw b opts now raw l).1
    unfolding handle_raw
    raw-AtMostOnce frames pending now raw l before =
        normalized-AtMostOnce frames pending now (normalize_result b raw l) (normalize_loop b raw l)
          (keep_AtMostOnce frames pending l (normalize_loop b raw l)
            (quiet raw (event_context l.session (is_some l.reply)) l.session.world) (inl refl)
            before)

    on_wake-AtMostOnce :
        (frames : List Value) (pending : Option (PendingReply D)) (now : ℕ) (wake : Wake)
        (l : Loop D)
        → AtMostOnce frames pending l
        → AtMostOnce frames pending (on_wake b opts now wake l).1
    unfolding on_wake
    on_wake-AtMostOnce frames pending now (event (some raw)) l before =
        raw-AtMostOnce frames pending now raw (pop_event b l)
          (keep_AtMostOnce frames pending l _ refl (inl refl) before)
    on_wake-AtMostOnce frames pending now (event none) l before =
        keep_AtMostOnce frames pending l _ refl (inl refl) before
    on_wake-AtMostOnce frames pending now reply l before =
        keep_AtMostOnce frames pending l _ refl (inl refl) before
    on_wake-AtMostOnce frames pending now stall l before =
        keep_AtMostOnce frames pending l _ (ap (filter counts) (ground arith)) (ground arith) before
    on_wake-AtMostOnce frames pending now timeout l before =
        keep_AtMostOnce frames pending l _ refl (inl refl) before

    -- Without `auto_decline`, and of a kind of frames that the backend does not write while it reads, a wait
    -- writes none but one: the answer to a request with the id of the pending reply, made from its payload.
    pub wait_loop-AtMostOnce :
        (now : ℕ) (pending : Option (PendingReply D)) (polls : List Poll) (s : Session)
        → AtMostOnce (filter counts s.world.sent) pending (wait_loop b opts now pending polls s).1
    wait_loop-AtMostOnce now pending polls s =
        wait_loop_rule b opts (λ o. AtMostOnce (filter counts s.world.sent) pending o.1) now pending
          polls s (λ _. unanswered refl (inl refl))
          (wait_polls_rule b opts (AtMostOnce (filter counts s.world.sent) pending) (λ _. Unit)
            (λ _. Unit) (λ _. Unit) now
            (λ p l _ before.
              keep_AtMostOnce (filter counts s.world.sent) pending l _ refl (inl refl) before)
            (λ d p l wake _ _ before _.
              on_wake-AtMostOnce (filter counts s.world.sent) pending p.now wake l before)
            (λ p l _ _. tt) (λ e. tt) (λ d p l wake code _ _ _ _ _. tt) tt (λ p l _ _ _. tt) polls _
            _ (All-Unit polls) tt (unanswered refl (inl refl))).1
