-- ===== src/Main/Reading.antt =====
-- The frames that the program (src/main.rs) writes for a command that reads, with src/backend/codex/mod.rs and
-- src/backend/dsh/mod.rs.
use codex_bridge.Common.{
  ◌≡◌, refl, inl, inr, [], ◌∷◌, unwrap_or, subst, sym, true, Bool, All, ok, err, Result, pure, ◌>>◌,
  with_ctx,
}
use codex_bridge.Json.{Value, get, null, object, lookup, insert, str, bool}
use codex_bridge.Connection.{World, request, notify, notify_frame}
use codex_bridge.Connection.Writes.{
  Writes, Writes-silent, Writes-bind, Writes-with_ctx, Writes-request, Writes-notify,
}
use codex_bridge.Rpc.{Codec}
use codex_bridge.Backend.{Thread}
use codex_bridge.Codex.{codex}
use codex_bridge.Codex as codex_backend
use codex_bridge.Codex.Wire as codex_wire
use codex_bridge.Codex.Messages as codex_messages
use codex_bridge.Dsh.Messages as dsh_messages
use codex_bridge.Dsh.{dsh}
use codex_bridge.Dsh as dsh_backend
use codex_bridge.Dsh.Wire as dsh_wire
use codex_bridge.Session.Verbs.Reading.{IsReading, ReadsOnly}
use codex_bridge.Output.{check_stdout, flush_stdout}
use codex_bridge.Cli.Reading.{reads, dispatch-IsReading, exit_code-IsReading}
use codex_bridge.Cli.{Inputs, dispatch}
use codex_bridge.Main.{
  Parsed, codex_command, dsh_command, usage_error, information, global_of, number_id, text_id,
  shown, main,
}

initialize-IsReading : (params : Value) → Writes IsReading (request "initialize" params)
unfolding object lookup insert
initialize-IsReading params = Writes-request IsReading "initialize" params λ id. inl refl

thread_read-IsReading : (params : Value) → Writes IsReading (request "thread/read" params)
unfolding object lookup insert
thread_read-IsReading params = Writes-request IsReading "thread/read" params λ id. inr (inr refl)

initialized-IsReading : Writes IsReading (notify "initialized" null)
unfolding object lookup insert notify_frame
initialized-IsReading = Writes-notify IsReading "initialized" null (inr (inl refl))

codex-ReadsOnly : (no_pane : Bool) → ReadsOnly (codex no_pane)
unfolding codex codex_backend.connect codex_backend.read_thread
codex-ReadsOnly no_pane = record {
  connects = λ url.
      Writes-bind IsReading {B = Value}
        (with_ctx "handshake failed" (request "initialize" codex_backend.client_info))
        (λ metadata. with_ctx "handshake failed" (notify "initialized" null) >> pure metadata)
        (Writes-with_ctx IsReading "handshake failed"
          (request "initialize" codex_backend.client_info)
          (initialize-IsReading codex_backend.client_info))
        λ metadata.
          Writes-bind IsReading {B = Value}
            (with_ctx "handshake failed" (notify "initialized" null)) (λ _. pure metadata)
            (Writes-with_ctx IsReading "handshake failed" (notify "initialized" null)
              initialized-IsReading)
            λ _. Writes-silent IsReading {A = Value} (pure metadata) λ w. refl;
  reads = λ id turns.
      let params = object (("threadId", str id) ∷ ("includeTurns", bool turns) ∷ []) in
      Writes-bind IsReading {B = Thread}
        (with_ctx "thread/read failed" (request "thread/read" params))
        (λ result.
          pure (codex_messages.normalize_thread id (unwrap_or (get "thread" result) result)))
        (Writes-with_ctx IsReading "thread/read failed" (request "thread/read" params)
          (thread_read-IsReading params))
        λ result.
          Writes-silent IsReading {A = Thread}
            (pure (codex_messages.normalize_thread id (unwrap_or (get "thread" result) result)))
            λ w. refl;
}

dsh-ReadsOnly : ReadsOnly dsh
unfolding dsh dsh_backend.connect dsh_backend.read_thread
dsh-ReadsOnly = record {
  connects = λ url.
      Writes-bind IsReading {B = Value}
        (with_ctx "handshake failed" (request "initialize" dsh_backend.client_info))
        (λ initialized w.
          (ok (object (("uiUrl", str (dsh_backend.connect_url initialized w)) ∷ [])), w))
        (Writes-with_ctx IsReading "handshake failed" (request "initialize" dsh_backend.client_info)
          (initialize-IsReading dsh_backend.client_info))
        λ initialized.
          Writes-silent IsReading {A = Value}
            (λ w. (ok (object (("uiUrl", str (dsh_backend.connect_url initialized w)) ∷ [])), w))
            λ w. refl;
  reads = λ id turns.
      let params = object (("threadId", str id) ∷ ("includeTurns", bool turns) ∷ []) in
      Writes-bind IsReading {B = Thread}
        (with_ctx "thread/read failed" (request "thread/read" params))
        (λ result. pure (dsh_messages.normalize_thread id result))
        (Writes-with_ctx IsReading "thread/read failed" (request "thread/read" params)
          (thread_read-IsReading params))
        λ result.
          Writes-silent IsReading {A = Thread} (pure (dsh_messages.normalize_thread id result))
            λ w. refl;
}

-- A command line that runs no verb that changes a thread.
abbrev pub only_reads : Parsed → Bool
only_reads (codex_command args) = reads args.command
only_reads (dsh_command args) = reads args.command
only_reads usage_error = true
only_reads (information _ _) = true

information-IsReading :
    (c : Codec) (i : Inputs) (printed flushed : Result (Unit {0})) (w : World)
    → (main c i (information printed flushed) w).1.sent ≡ w.sent
unfolding main shown check_stdout flush_stdout
information-IsReading c i (ok _) (ok _) w = refl
information-IsReading c i (ok _) (err e) w = refl
information-IsReading c i (err e) flushed w = refl

-- For a command line whose verb, if it has one, is `status`, `read` or an action of the daemon, the frames that the
-- program writes call `initialize`, `initialized` or `thread/read` only, if the frames before did: for either
-- backend, and also where the program fails.
pub main-IsReading :
    (c : Codec) (i : Inputs) (parsed : Parsed) (w : World)
    → only_reads parsed ≡ true
    → All IsReading w.sent
    → All IsReading (main c i parsed w).1.sent
unfolding main
main-IsReading c i (codex_command args) w h before =
    exit_code-IsReading
      (dispatch (codex args.no_pane) number_id i (global_of args.url args.log) args.command
        (record w { protocol = codex_wire.wire c }))
      (dispatch-IsReading (codex args.no_pane) number_id (codex-ReadsOnly args.no_pane) i
        (global_of args.url args.log) args.command (record w { protocol = codex_wire.wire c }) h
        before)
main-IsReading c i (dsh_command args) w h before =
    exit_code-IsReading
      (dispatch dsh text_id i (global_of args.url args.log) args.command
        (record w { protocol = dsh_wire.wire c }))
      (dispatch-IsReading dsh text_id dsh-ReadsOnly i (global_of args.url args.log) args.command
        (record w { protocol = dsh_wire.wire c }) h before)
main-IsReading c i usage_error w h before = before
main-IsReading c i (information printed flushed) w h before =
    subst (All IsReading) (sym (information-IsReading c i printed flushed w)) before
