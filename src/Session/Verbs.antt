-- ===== src/Session/Verbs.antt =====
-- The verbs of src/core/session.rs: `open`, `run`, `wait`, `reply`, `steer`, `interrupt`, `status`,
-- `read`, and `resume` and `active_turn` below them.
pub mod Codes
pub mod ActiveTurn
pub mod Reading
use codex_bridge.Common.{
  ℕ, ◌+◌, ◌*◌, true, false, not, ◌&&◌, String, Option, none, some, List, [], ◌∷◌, map, reverse,
  last, find, ◌⧺◌, Act, Result, ok, err, ok_or, pure, lift, ◌>>=◌, ◌>>◌, and_then, or_else,
  unwrap_or, is_some, length, if◌then◌else◌,
}
use codex_bridge.Json.{Value, null, str, array, of_list, as_str, object, opt_str, extend_fields}
use codex_bridge.Host.{Machine}
use codex_bridge.Connection.{World}
use codex_bridge.Daemon.{ensure}
use codex_bridge.Logging as logging
use codex_bridge.Logging.{Emitter}
use codex_bridge.Backend.{
  Backend, StartedThread, ModelSettings, Thread, Turn, Global, RunArgs, WaitFlags,
}
use codex_bridge.Session.Wake.{Poll, Receiver, second, reply_redelivery_secs}
use codex_bridge.Session.Handle.{
  Session, Loop, PendingReply, ReplyPayload, exit_completed, new_session, on_world, emit_event,
  emit_turn,
}
use codex_bridge.Session.Open.{on_machine, open_backend, begin_run}
use codex_bridge.Session.Wait.{Outcome, exited, failed, wait_loop}
use codex_bridge.Session.Selection.{reply_to_only_request}

unfoldable pub active_turn : Thread → String → String → Result String
active_turn thread thread_id action =
    ok_or (and_then (find (λ t. t.running) (reverse thread.turns)) (λ t. t.id))
      ("thread " ⧺ thread_id ⧺ " has no turn in progress to " ⧺ action)

-- Emit a line outside a session.
abbrev emit_line : Emitter → Value → Act World ℕ
emit_line out value w = let (_, w') = logging.emit value out w in (ok exit_completed, w')

turn_entry : Turn → Value
turn_entry t = object (("id", opt_str t.id) ∷ ("status", t.status) ∷ [])

module _ {Run D : Type 0} (b : Backend Run D) where
  abbrev outcome_world : Outcome × Loop D → Outcome × World
  outcome_world o = let (r, l) = o in (r, l.session.world)

  after_begin : RunArgs → ℕ → List Poll → Result Session × World → Outcome × World
  unfolding wait_loop
  after_begin common now polls (err e, w) = (failed e, w)
  after_begin common now polls (ok s, w) =
      if common.no_wait
      then (exited exit_completed, s.world)
      else outcome_world (wait_loop b common.wait now none polls s)

  unfoldable pub run :
      Global
      → Run
      → String
      → Option String
      → ModelSettings
      → Receiver
      → ℕ
      → List Poll
      → World
      → Outcome × World
  unfolding begin_run after_begin
  run global args prompt instructions settings events now polls w =
      after_begin (b.common args) now polls
        (begin_run b global args prompt instructions settings events w)

  -- The last turn of a thread that is not running, or "completed" with no turn.
  last_turn : Option Turn → Session → ℕ × Session
  unfolding emit_event emit_turn
  last_turn none s = (
    exit_completed,
    emit_event
        (object (
          ("event", str "turn")
          ∷ ("status", str "completed")
          ∷ ("threadId", str s.thread_id)
          ∷ ("turnId", null)
          ∷ ("finalMessage", str "")
          ∷ []))
        s,
  )
  last_turn (some t) s =
      emit_turn (unwrap_or (as_str t.status) "completed") t.fields (record s { turn_id = t.id })

  resumed : Thread → Session → Result (Option ℕ) × Session
  unfolding last_turn
  resumed thread s =
      let (r, s') = on_world (b.read_thread s.thread_id true) s in
      elim r [
        | err e ↦ (err e, s')
        | ok full ↦
            let (code, s'') =
              last_turn (last full.turns) (record s' { final_message = full.final_message }) in
            (ok (some code), s'')
      ]

  -- `none` when the thread is running.
  unfoldable pub resume : Act Session (Option ℕ)
  unfolding resumed
  resume s =
      let (r, s') = on_world (b.resume_thread s.thread_id) s in
      elim r [
        | err e ↦ (err e, s')
        | ok thread ↦ if thread.running then (ok none, s') else resumed thread s'
      ]

  -- `resume`, and the wait if the thread is running.
  resume_and_wait : WaitFlags → ℕ → Option (PendingReply D) → List Poll → Session → Outcome × World
  unfolding resume wait_loop
  resume_and_wait opts now pending polls s =
      let (r, s') = resume s in
      elim r [
        | err e ↦ (failed e, s'.world)
        | ok early ↦ elim early [
          | some code ↦ (exited code, s'.world)
          | none ↦ outcome_world (wait_loop b opts now pending polls s')
        ]
      ]

  -- `open`, `Session::new` and `attach`.
  attached : Global → String → Receiver → Act World Session
  unfolding open_backend new_session
  attached global thread_id events = do
    (metadata, out) ← open_backend b global (some thread_id)
    (λ w.
        let w' = b.attach global.url thread_id none w in
        (ok (new_session w' events thread_id out), w'))

  unfoldable pub wait :
      Global → String → WaitFlags → Receiver → ℕ → List Poll → World → Outcome × World
  unfolding attached resume_and_wait
  wait global thread_id opts events now polls w =
      let (r, w') = attached global thread_id events w in
      elim r [ err e ↦ (failed e, w') | ok s ↦ resume_and_wait opts now none polls s ]

  unfoldable pub reply :
      Global
      → String
      → Option Value
      → ReplyPayload D
      → WaitFlags
      → Receiver
      → ℕ
      → List Poll
      → World
      → Outcome × World
  unfolding attached resume_and_wait reply_to_only_request
  reply global thread_id request_id payload opts events now polls w =
      let (r, w') = attached global thread_id events w in
      elim r [
        | err e ↦ (failed e, w')
        | ok s ↦ elim request_id [
          | none ↦ outcome_world (reply_to_only_request b opts now payload polls s)
          | some id ↦
              resume_and_wait opts now
                (some (record {
                  id = id;
                  payload = payload;
                  deadline = now + reply_redelivery_secs * second;
                }))
                polls s
        ]
      ]

  -- The turn that was named, else the one that is running.
  steered_turn : String → Option String → Act World String
  unfolding active_turn
  steered_turn thread_id (some id) = pure id
  steered_turn thread_id none = do
    thread ← b.read_thread thread_id true
    lift (active_turn thread thread_id "steer")

  unfoldable pub steer : Global → String → Option String → String → Act World ℕ
  unfolding open_backend steered_turn
  steer global thread_id turn text = do
    (metadata, out) ← open_backend b global (some thread_id)
    (λ w. (ok tt, b.attach global.url thread_id none w))
    turn_id ← steered_turn thread_id turn
    result ← b.steer thread_id turn_id text
    emit_line out
        (object (("event", str "steered") ∷ ("threadId", str thread_id) ∷ ("result", result) ∷ []))

  unfoldable pub interrupt : Global → String → Act World ℕ
  unfolding open_backend active_turn
  interrupt global thread_id = do
    (metadata, out) ← open_backend b global (some thread_id)
    thread ← b.read_thread thread_id true
    turn_id ← lift (active_turn thread thread_id "interrupt")
    result ← b.interrupt thread_id turn_id
    emit_line out (
        object (
          ("event", str "interrupted")
          ∷ ("threadId", str thread_id)
          ∷ ("turnId", str turn_id)
          ∷ ("result", result)
          ∷ []))

  unfoldable pub status : Global → String → Act World ℕ
  unfolding open_backend
  status global thread_id = do
    (metadata, out) ← open_backend b global (some thread_id)
    thread ← b.read_thread thread_id false
    emit_line out (
        object (
          ("threadId", str thread_id)
          ∷ ("status", thread.status)
          ∷ ("cwd", thread.cwd)
          ∷ ("model", thread.model)
          ∷ []))

  unfoldable pub read : Global → String → Act World ℕ
  unfolding open_backend turn_entry
  read global thread_id = do
    (metadata, out) ← open_backend b global (some thread_id)
    thread ← b.read_thread thread_id true
    emit_line out (
        object (
          ("threadId", str thread_id)
          ∷ ("turns", array (of_list (map turn_entry thread.turns)))
          ∷ ("finalMessage", str thread.final_message)
          ∷ []))
