-- ===== src/Logging.antt =====
-- src/core/logging.rs: JSON lines on stdout and in the log file of a thread.
use codex_bridge.Common.{
  ℕ, Bool, true, false, ◌||◌, String, Option, none, some, List, [], ◌∷◌, ◌⧺◌, ◌==◌, Result, ok, err,
  context, and_ok, is_some_and, if◌then◌else◌,
}
use codex_bridge.Common.Text.{Component, normal, components}
use codex_bridge.Json.{Value, str, get_str, set_key}
use codex_bridge.Host.{Outside}
use codex_bridge.Paths.{state_dir}
use codex_bridge.Connection.{World}

-- `log` is the open file: the lines that this emitter has written to it, newest first.
pub record Emitter : Type 0 where
  pub log : Option (List Value)
  pub log_path : Option String
  pub unlogged_events : ℕ
  pub suppress_log : Bool

abbrev opened : Option (List Value) → Option String → Emitter
opened log path = record { log = log; log_path = path; unlogged_events = 0; suppress_log = false }

-- `Emitter::new`
unfoldable pub new : Outside → Option String → Result Emitter
new o none = ok (opened none none)
new o (some path) = elim (o.opens path) [
  | ok _ ↦ ok (opened (some []) (some path))
  | err e ↦ err ("opening log file " ⧺ path ⧺ ": " ⧺ e)
]

unfoldable pub is_file_name : List Component → Bool
is_file_name (normal _ ∷ []) = true
is_file_name _ = false

unfoldable pub for_thread : Outside → String → String → Result Emitter
unfolding new is_file_name
for_thread o state_name thread_id =
    if is_file_name (components thread_id)
    then (let dir = o.join (state_dir o state_name) "logs" in
        and_ok (context ("creating log directory " ⧺ dir) (o.creates_dir dir))
          λ _. new o (some (o.join dir (thread_id ⧺ ".jsonl"))))
    else err ("invalid thread id for a log filename: " ⧺ thread_id)

-- A line that cannot be written is dropped.
unfoldable pub append : Outside → Value → List Value → List Value
append o line lines = if o.appends (line ∷ lines) then line ∷ lines else lines

unfoldable pub write_log : Outside → Value → Emitter → Emitter
unfolding append
write_log o line e =
    if e.suppress_log
    then e
    else elim e.log [ none ↦ e | some lines ↦ record e { log = some (append o line lines) } ]

-- "started" and "turn" events name the log file.
unfoldable pub with_log_path : Option String → Value → Value
with_log_path none value = value
with_log_path (some path) value =
    if is_some_and (λ v. v == "started" || v == "turn") (get_str "event" value)
    then set_key "logPath" (str path) value
    else value

unfoldable pub emit : Value → Emitter → World → Emitter × World
unfolding write_log with_log_path
emit value e w =
    let line = with_log_path e.log_path value in
    (write_log w.outside line e, record w { stdout = line ∷ w.stdout })
