-- ===== src/Session/Verbs/Reading.antt =====
-- The frames that `status` and `read` of src/core/session.rs write.
use codex_bridge.Common.{
  ◌≡◌, refl, ◌⊎◌, true, false, Bool, String, Option, some, [], ◌∷◌, pure, ◌>>=◌, ◌>>◌, map, ℕ,
}
use codex_bridge.Json.{Value, get_str, str, object, array, of_list}
use codex_bridge.Connection.Writes.{Writes, Writes-silent, Writes-bind}
use codex_bridge.Daemon.{ensure}
use codex_bridge.Logging.{Emitter}
use codex_bridge.Backend.{Backend, Global, Thread}
use codex_bridge.Session.Open.{on_machine, open_backend, emitter_for}
use codex_bridge.Session.Verbs.{status, read, emit_line, turn_entry}

-- The frame calls a method that changes no thread.
abbrev pub IsReading : Value → Type 0
IsReading frame =
    (get_str "method" frame ≡ some "initialize")
    ⊎ (get_str "method" frame ≡ some "initialized")
    ⊎ (get_str "method" frame ≡ some "thread/read")

module _ {Run D : Type 0} (b : Backend Run D) where
  -- The operations that read do not call any other method.
  pub record ReadsOnly : Type 0 where
    pub connects : (url : String) → Writes IsReading (b.connect url)
    pub reads : (id : String) (turns : Bool) → Writes IsReading (b.read_thread id turns)

  module _ (r : ReadsOnly) where
    open_backend-Writes :
        (global : Global) (thread : Option String) → Writes IsReading (open_backend b global thread)
    unfolding open_backend
    open_backend-Writes global thread =
        Writes-bind IsReading {A = Emitter} {B = Value × Emitter}
          (λ w. (emitter_for b global thread w, w))
          (λ out.
            (λ w. on_machine (ensure b w.outside global.url) w)
            >> (b.connect global.url >>= λ metadata. pure (metadata, out)))
          (Writes-silent IsReading {A = Emitter} (λ w. (emitter_for b global thread w, w))
            λ w. refl)
          λ out.
            Writes-bind IsReading {B = Value × Emitter}
              (λ w. on_machine (ensure b w.outside global.url) w)
              (λ _. b.connect global.url >>= λ metadata. pure (metadata, out))
              (Writes-silent IsReading (λ w. on_machine (ensure b w.outside global.url) w)
                λ w. refl)
              λ _.
                Writes-bind IsReading {B = Value × Emitter} (b.connect global.url)
                  (λ metadata. pure (metadata, out)) (r.connects global.url)
                  λ metadata.
                    Writes-silent IsReading {A = Value × Emitter} (pure (metadata, out)) λ w. refl

    -- Open, read the thread, and emit one line about it.
    reading-Writes :
        (global : Global) (id : String) (turns : Bool) (line : Thread → Value)
        → Writes IsReading (
            open_backend b global (some id) >>= λ o.
            b.read_thread id turns >>= λ t. emit_line o.1 (line t))
    unfolding codex_bridge.Logging.emit
    reading-Writes global id turns line =
        Writes-bind IsReading {B = ℕ} (open_backend b global (some id))
          (λ o. b.read_thread id turns >>= λ t. emit_line o.1 (line t))
          (open_backend-Writes global (some id))
          λ o.
            Writes-bind IsReading {B = ℕ} (b.read_thread id turns) (λ t. emit_line o.1 (line t))
              (r.reads id turns) λ t. Writes-silent IsReading (emit_line o.1 (line t)) λ w. refl

    pub status-Writes : (global : Global) (id : String) → Writes IsReading (status b global id)
    unfolding status
    status-Writes global id = reading-Writes global id false λ t.
        object
          (("threadId", str id) ∷ ("status", t.status) ∷ ("cwd", t.cwd) ∷ ("model", t.model) ∷ [])

    pub read-Writes : (global : Global) (id : String) → Writes IsReading (read b global id)
    unfolding read
    read-Writes global id = reading-Writes global id true λ t. object (
        ("threadId", str id)
        ∷ ("turns", array (of_list (map turn_entry t.turns)))
        ∷ ("finalMessage", str t.final_message)
        ∷ [])
