-- ===== src/Session/Open/Idle.antt =====
-- The thread on which `run` of src/core/session.rs starts a turn.
use codex_bridge.Common.{
  ◌≡◌, refl, inl, inr, false, String, Option, some, length, ok, Result-cases, Bool-cases, arith,
  ok_inj, subst,
}
use codex_bridge.Json.{Value}
use codex_bridge.Connection.{World}
use codex_bridge.Logging.{Emitter}
use codex_bridge.Backend.{Backend, Global, ModelSettings, StartedThread, Thread}
use codex_bridge.Session.Wake.{Receiver}
use codex_bridge.Session.Handle.{Session, emit_event, new_session}
use codex_bridge.Session.Open.{
  open_backend, start, thread_log, start_when_idle, begin_run, refuse_running,
}

module _ {Run D : Type 0} (b : Backend Run D) where
  -- The turn of the session was started where the thread had just been read, and was not running.
  pub record IsIdleStart (prompt : String) (settings : ModelSettings) (s : Session) : Type 0 where
    pub before : World
    pub thread : Thread
    pub turn : String
    pub was_read : (b.read_thread s.thread_id false before).0 ≡ ok thread
    pub idle : thread.running ≡ false
    pub was_started :
        (b.start_turn s.thread_id prompt settings (b.read_thread s.thread_id false before).1).0
        ≡ ok turn
    pub is_turn : s.turn_id ≡ some turn

  start_when_idle-IsIdleStart :
      (global : Global) (args : Run) (prompt : String) (settings : ModelSettings)
      (events : Receiver) (started : StartedThread) (metadata : Value) (out : Emitter) (w : World)
      (s : Session)
      → (start_when_idle b global args prompt settings events started metadata out w).0 ≡ ok s
      → IsIdleStart prompt settings s
  unfolding start_when_idle refuse_running new_session emit_event
  start_when_idle-IsIdleStart global args prompt settings events started metadata out w s h =
      elim (Result-cases (b.read_thread started.id false w).0) [
        | inr (x, e) ↦ absurd (ground arith)
        | inl (thread, e) ↦ elim (Bool-cases thread.running) [
          | inl busy ↦ absurd (ground arith)
          | inr idle ↦
              elim (Result-cases
                (b.start_turn started.id prompt settings (b.read_thread started.id false w).1).0) [
                  | inr (x, f) ↦ absurd (ground arith)
                  | inl (turn, f) ↦
                      subst (IsIdleStart prompt settings)
                        (ok_inj (rw (e, idle, f, start_when_idle) at h))
                        record {
                          before = w;
                          thread = thread;
                          turn = turn;
                          was_read = e;
                          idle = idle;
                          was_started = f;
                          is_turn = refl;
                        }
                ]
        ]
      ]

  -- A `run` that gets as far as its wait has started its turn on a thread that it had read immediately before, and
  -- that was not running.
  pub begin_run-IsIdleStart :
      (global : Global) (args : Run) (prompt : String) (instructions : Option String)
      (settings : ModelSettings) (events : Receiver) (w : World) (s : Session)
      → (begin_run b global args prompt instructions settings events w).0 ≡ ok s
      → IsIdleStart prompt settings s
  unfolding begin_run
  begin_run-IsIdleStart global args prompt instructions settings events w s h =
      let id = (b.common args).thread in
      let w1 = (open_backend b global id w).1 in
      elim (Result-cases (open_backend b global id w).0) [
        | inr (x, e) ↦ absurd (ground arith)
        | inl ((metadata, first), e) ↦
            let w2 = (start b args instructions settings id w1).1 in
            elim (Result-cases (start b args instructions settings id w1).0) [
              | inr (x, f) ↦ absurd (ground arith)
              | inl (started, f) ↦
                  elim (Result-cases
                    (thread_log b global id started.id (length events.queue) first w2)) [
                      | inr (x, g) ↦ absurd (ground arith)
                      | inl (out, g) ↦
                          start_when_idle-IsIdleStart global args prompt settings events started
                            metadata out w2 s (rw (e, f, g, begin_run) at h)
                    ]
            ]
      ]
