-- ===== src/Session/Verbs/Codes.antt =====
-- The exit codes of the verbs of src/core/session.rs.
use codex_bridge.Common.{
  ◌≤◌, ◌≡◌, inl, inr, ℕ, true, String, Option, none, some, List, arith, Result, ok, err,
  Result-cases, Option-cases, last, subst, if_both, ◌∙◌, ap, ◌+◌, ◌*◌,
}
use codex_bridge.Json.{Value}
use codex_bridge.Connection.{World}
use codex_bridge.Backend.{Backend, Global, RunArgs, WaitFlags, ModelSettings, Turn, Thread}
use codex_bridge.Session.Wake.{Poll, Receiver, reply_redelivery_secs, second}
use codex_bridge.Session.Selection.Codes.{reply_to_only_request-IsAllowed}
use codex_bridge.Session.Handle.{Session, PendingReply, ReplyPayload, emit_turn}
use codex_bridge.Session.Wait.{Outcome}
use codex_bridge.Session.Wait.Overflow.{IsBy}
use codex_bridge.Session.Wait.Ends.{
  AllowedExit, completed, IsAllowed, wait_loop-IsAllowed, turn-AllowedExit,
}
use codex_bridge.Session.Open.{begin_run}
use codex_bridge.Session.Verbs.{
  run, after_begin, wait, reply, steer, interrupt, status, read, resume, resumed, last_turn,
  attached, resume_and_wait,
}

module _ {Run D : Type 0} (b : Backend Run D) where
  pub status-code :
      (global : Global) (thread : String) (w : World) (code : ℕ)
      → (status b global thread w).0 ≡ ok code
      → code ≡ 0
  unfolding status
  status-code global thread w code h = ground arith

  pub steer-code :
      (global : Global) (thread : String) (turn : Option String) (text : String) (w : World)
      (code : ℕ)
      → (steer b global thread turn text w).0 ≡ ok code
      → code ≡ 0
  unfolding steer
  steer-code global thread turn text w code h = ground arith

  pub interrupt-code :
      (global : Global) (thread : String) (w : World) (code : ℕ)
      → (interrupt b global thread w).0 ≡ ok code
      → code ≡ 0
  unfolding interrupt
  interrupt-code global thread w code h = ground arith

  pub read-code :
      (global : Global) (thread : String) (w : World) (code : ℕ)
      → (read b global thread w).0 ≡ ok code
      → code ≡ 0
  unfolding read
  read-code global thread w code h = ground arith

  begin-IsAllowed :
      (common : RunArgs) (t now : ℕ) (polls : List Poll) (r : Result Session) (w : World)
      → now ≤ t
      → IsBy t polls
      → IsAllowed b common.wait t (after_begin b common now polls (r, w)).0
  unfolding after_begin
  begin-IsAllowed common t now polls (err e) w soon by = tt
  begin-IsAllowed common t now polls (ok s) w soon by =
      if_both (λ (o : Outcome × World). IsAllowed b common.wait t o.0) common.no_wait _ _ completed
        (wait_loop-IsAllowed b common.wait t now none polls s soon by)

  pub run-IsAllowed :
      (global : Global) (args : Run) (prompt : String) (instructions : Option String)
      (settings : ModelSettings) (events : Receiver) (t now : ℕ) (polls : List Poll) (w : World)
      → now ≤ t
      → IsBy t polls
      → IsAllowed b
          (b.common args).wait
          t
          (run b global args prompt instructions settings events now polls w).0
  unfolding run
  run-IsAllowed global args prompt instructions settings events t now polls w soon by =
      begin-IsAllowed (b.common args) t now polls
        (begin_run b global args prompt instructions settings events w).0
        (begin_run b global args prompt instructions settings events w).1 soon by

  module _ (opts : WaitFlags) where
    last-AllowedExit : (t : Option Turn) (s : Session) → AllowedExit b opts (last_turn b t s).0
    unfolding last_turn emit_turn
    last-AllowedExit none s = completed
    last-AllowedExit (some t) s = turn-AllowedExit b opts _

    resumed-AllowedExit :
        (thread : Thread) (s : Session) (code : ℕ)
        → (resumed b thread s).0 ≡ ok (some code)
        → AllowedExit b opts code
    unfolding resumed
    resumed-AllowedExit thread s code h =
        elim (Result-cases (b.read_thread s.thread_id true s.world).0) [
          | inr (x, e) ↦ absurd (ground arith)
          | inl (full, e) ↦
              let s' = record s {
                world = (b.read_thread s.thread_id true s.world).1;
                final_message = full.final_message;
              } in
              let same : (last_turn b (last full.turns) s').0 ≡ code = ground arith in
              subst (AllowedExit b opts) same (last-AllowedExit (last full.turns) s')
        ]

    resume-AllowedExit :
        (s : Session) (code : ℕ) → (resume b s).0 ≡ ok (some code) → AllowedExit b opts code
    unfolding resume
    resume-AllowedExit s code h = elim (Result-cases (b.resume_thread s.thread_id s.world).0) [
      | inr (x, e) ↦ absurd (ground arith)
      | inl (thread, e) ↦
          let s' = record s { world = (b.resume_thread s.thread_id s.world).1 } in
          let same : (resumed b thread s').0 ≡ ok (some code) = ground arith in
          resumed-AllowedExit thread s' code same
    ]

    resumed-IsAllowed :
        (t now : ℕ) (pending : Option (PendingReply D)) (polls : List Poll) (s : Session)
        → now ≤ t
        → IsBy t polls
        → IsAllowed b opts t (resume_and_wait b opts now pending polls s).0
    unfolding resume_and_wait
    resumed-IsAllowed t now pending polls s soon by = elim (Result-cases (resume b s).0) [
      | inr (x, e) ↦ rw (e, resume_and_wait) tt
      | inl (early, e) ↦ elim (Option-cases early) [
        | inl f ↦
            rw (e, f, resume_and_wait)
              (wait_loop-IsAllowed b opts t now pending polls (resume b s).1 soon by)
        | inr (code, f) ↦ rw (e, f, resume_and_wait) (resume-AllowedExit s code (e ∙ ap ok f))
      ]
    ]

    pub wait-IsAllowed :
        (global : Global) (thread : String) (events : Receiver) (t now : ℕ) (polls : List Poll)
        (w : World)
        → now ≤ t
        → IsBy t polls
        → IsAllowed b opts t (wait b global thread opts events now polls w).0
    unfolding wait
    wait-IsAllowed global thread events t now polls w soon by =
        elim (Result-cases (attached b global thread events w).0) [
          | inr (x, e) ↦ rw (e, wait) tt
          | inl (s, e) ↦ rw (e, wait) (resumed-IsAllowed t now none polls s soon by)
        ]

    pub reply-IsAllowed :
        (global : Global) (thread : String) (id : Option Value) (payload : ReplyPayload D)
        (events : Receiver) (t now : ℕ) (polls : List Poll) (w : World)
        → now ≤ t
        → IsBy t polls
        → IsAllowed b opts t (reply b global thread id payload opts events now polls w).0
    unfolding reply
    reply-IsAllowed global thread id payload events t now polls w soon by =
        elim (Result-cases (attached b global thread events w).0) [
          | inr (x, e) ↦ rw (e, reply) tt
          | inl (s, e) ↦ elim (Option-cases id) [
            | inl f ↦
                rw (e, f, reply)
                  (reply_to_only_request-IsAllowed b opts t now payload polls s soon by)
            | inr (i, f) ↦
                rw (e, f, reply)
                  (resumed-IsAllowed t now
                    (some (record {
                      id = i;
                      payload = payload;
                      deadline = now + reply_redelivery_secs * second;
                    }))
                    polls s soon by)
          ]
        ]
