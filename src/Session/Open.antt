-- ===== src/Session/Open.antt =====
-- `open` and `run` up to the "started" event, in src/core/session.rs.
pub mod Idle
mod Tests
use codex_bridge.Common.{
  ℕ, false, not, ◌&&◌, String, Option, none, some, [], ◌∷◌, ◌⧺◌, Act, Result, ok, err, pure, ◌>>=◌,
  ◌>>◌, or_else, is_some, length, if◌then◌else◌,
}
use codex_bridge.Json.{Value, str, as_str, object, opt_str, extend_fields}
use codex_bridge.Host.{Machine}
use codex_bridge.Connection.{World}
use codex_bridge.Daemon.{ensure}
use codex_bridge.Logging as logging
use codex_bridge.Logging.{Emitter}
use codex_bridge.Backend.{Backend, StartedThread, ModelSettings, Thread, Global}
use codex_bridge.Session.Wake.{Receiver}
use codex_bridge.Session.Handle.{Session, new_session, emit_event}

-- An action of the daemon's machine.
abbrev pub on_machine {ℓ} : {A : Type ℓ} → (Machine → Result A × Machine) → World → Result A × World
on_machine m w = let (r, machine) = m w.machine in (r, record w { machine = machine })

module _ {Run D : Type 0} (b : Backend Run D) where
  pub emitter_for : Global → Option String → World → Result Emitter
  emitter_for global thread_id w =
      if global.no_log then logging.new w.outside none else elim global.log [
        | some path ↦ logging.new w.outside (some path)
        | none ↦ elim thread_id [
          | some id ↦ logging.for_thread w.outside b.state_name id
          | none ↦ logging.new w.outside none
        ]
      ]

  -- The log file, the daemon, the connection; the metadata of `Opened` beside the emitter.
  unfoldable pub open_backend : Global → Option String → Act World (Value × Emitter)
  unfolding emitter_for
  open_backend global thread_id = do
    out ← (λ w. (emitter_for global thread_id w, w))
    (λ w. on_machine (ensure b w.outside global.url) w)
    metadata ← b.connect global.url
    pure (metadata, out)

  start : Run → Option String → ModelSettings → Option String → Act World StartedThread
  start args instructions settings none = b.start_thread args instructions settings
  start args instructions settings (some id) = b.start_existing_thread id

  -- A new thread's log begins behind the events that are queued.
  unfoldable pub thread_log : Global → Option String → String → ℕ → Emitter → World → Result Emitter
  thread_log global thread id queued out w =
      if not global.no_log && (not (is_some global.log) && not (is_some thread))
      then elim (logging.for_thread w.outside b.state_name id) [
        | err e ↦ err e
        | ok fresh ↦ ok (record fresh { unlogged_events = queued })
      ]
      else ok out

  started_event : Session → Value → Value
  started_event s fields =
      extend_fields
        (object (
          ("event", str "started")
          ∷ ("threadId", str s.thread_id)
          ∷ ("turnId", opt_str s.turn_id)
          ∷ []))
        fields

  refuse_running : Thread → World → Result (Unit {0})
  refuse_running thread w =
      if thread.running
      then err (
          "thread "
          ⧺ thread.id
          ⧺ " is already running ("
          ⧺ w.outside.display thread.status
          ⧺ "); refusing to start another turn")
      else ok tt

  -- A turn on a thread that is not running: the thread is read before the turn starts.
  unfoldable pub start_when_idle :
      Global
      → Run
      → String
      → ModelSettings
      → Receiver
      → StartedThread
      → Value
      → Emitter
      → Act World Session
  unfolding started_event refuse_running new_session emit_event
  start_when_idle global args prompt settings events started metadata out = do
    thread ← b.read_thread started.id false
    (λ w. (refuse_running thread w, w))
    turn_id ← b.start_turn started.id prompt settings
    (λ w.
        let s = record (new_session w events started.id out) { turn_id = some turn_id } in
        let s' = emit_event (started_event s (b.started_fields started metadata)) s in
        let w' =
          b.attach global.url started.id (or_else (b.common args).cwd (as_str thread.cwd))
            s'.world in
        (ok (record s' { world = w' }), w'))

  -- `run` up to the "started" event.
  unfoldable pub begin_run :
      Global → Run → String → Option String → ModelSettings → Receiver → Act World Session
  unfolding open_backend start thread_log start_when_idle
  begin_run global args prompt instructions settings events = do
    (metadata, first) ← open_backend global (b.common args).thread
    started ← start args instructions settings (b.common args).thread
    out ← (λ w.
        (thread_log global (b.common args).thread started.id (length events.queue) first w, w))
    start_when_idle global args prompt settings events started metadata out
