-- ===== src/Cli/Reading.antt =====
-- The commands of src/cli.rs that change no thread.
use codex_bridge.Common.{◌≡◌, refl, true, false, Bool, All, ok, err, Result, ℕ, subst, sym, arith}
use codex_bridge.Json.{Value}
use codex_bridge.Connection.{World}
use codex_bridge.Backend.{Backend, Global}
use codex_bridge.Config.{Config, load}
use codex_bridge.Session.Wait.{Outcome, waiting, exited, failed, panicked}
use codex_bridge.Daemon as daemon
use codex_bridge.Session.Open.{on_machine}
use codex_bridge.Session.Verbs as verbs
use codex_bridge.Session.Verbs.Reading.{IsReading, ReadsOnly, status-Writes, read-Writes}
use codex_bridge.Cli.{
  Inputs, Command, run, wait, reply, steer, interrupt, status, read, manage, outcome, with_config,
  dispatch_with, dispatch, exit_code,
}

-- `status`, `read` and the actions of the daemon.
abbrev pub reads : {Run D I : Type 0} → Command Run D I → Bool
reads (run _) = false
reads (wait _) = false
reads (reply _) = false
reads (steer _) = false
reads (interrupt _) = false
reads (status _) = true
reads (read _) = true
reads (manage _) = true

outcome-sent : (r : Result ℕ × World) → (outcome r).1.sent ≡ r.1.sent
unfolding outcome
outcome-sent (ok code, w) = refl
outcome-sent (err e, w) = refl

exit_code-sent : (o : Outcome × World) → (exit_code o).1.sent ≡ o.1.sent
unfolding exit_code
exit_code-sent (waiting, w) = refl
exit_code-sent (exited code, w) = refl
exit_code-sent (failed e, w) = refl
exit_code-sent (panicked, w) = refl

pub exit_code-IsReading :
    (o : Outcome × World) → All IsReading o.1.sent → All IsReading (exit_code o).1.sent
exit_code-IsReading o h = subst (All IsReading) (sym (exit_code-sent o)) h

outcome-IsReading :
    (r : Result ℕ × World) → All IsReading r.1.sent → All IsReading (outcome r).1.sent
outcome-IsReading r h = subst (All IsReading) (sym (outcome-sent r)) h

module _ {Run D I : Type 0} (b : Backend Run D) (into : I → Value) (only : ReadsOnly b) where
  dispatch_with-IsReading :
      (i : Inputs) (config : Config) (global : Global) (command : Command Run D I) (w : World)
      → reads command ≡ true
      → All IsReading w.sent
      → All IsReading (dispatch_with b into i config global command w).1.sent
  unfolding dispatch_with
  dispatch_with-IsReading i config global (run args) w h before = ground arith
  dispatch_with-IsReading i config global (wait args) w h before = ground arith
  dispatch_with-IsReading i config global (reply args) w h before = ground arith
  dispatch_with-IsReading i config global (steer args) w h before = ground arith
  dispatch_with-IsReading i config global (interrupt args) w h before = ground arith
  dispatch_with-IsReading i config global (status args) w h before =
      outcome-IsReading (verbs.status b global args.thread w)
        (status-Writes b only global args.thread w before)
  dispatch_with-IsReading i config global (read args) w h before =
      outcome-IsReading (verbs.read b global args.thread w)
        (read-Writes b only global args.thread w before)
  dispatch_with-IsReading i config global (manage args) w h before =
      outcome-IsReading (on_machine (daemon.run b w.outside global.url args.action) w) before

  with_config-IsReading :
      (i : Inputs) (config : Result Config) (global : Global) (command : Command Run D I)
      (w : World)
      → reads command ≡ true
      → All IsReading w.sent
      → All IsReading (with_config b into i config global command w).1.sent
  unfolding with_config
  with_config-IsReading i (err e) global command w h before = before
  with_config-IsReading i (ok config) global command w h before =
      dispatch_with-IsReading i config global command w h before

  pub dispatch-IsReading :
      (i : Inputs) (global : Global) (command : Command Run D I) (w : World)
      → reads command ≡ true
      → All IsReading w.sent
      → All IsReading (dispatch b into i global command w).1.sent
  unfolding dispatch
  dispatch-IsReading i global command w h before =
      with_config-IsReading i (load i.from_toml i.read_config w.outside) global command w h before
