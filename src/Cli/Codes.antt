-- ===== src/Cli/Codes.antt =====
-- The exit codes of whole commands (src/cli.rs, src/main.rs).
use codex_bridge.Common.{
  ◌≡◌, refl, ◌⊎◌, inl, inr, ℕ, String, Option, some, subst, arith, Result, ok, err,
}
use codex_bridge.Json.{Value}
use codex_bridge.Connection.{World}
use codex_bridge.Config.{Config, load, resolve}
use codex_bridge.Backend.{Backend, Global, WaitFlags}
use codex_bridge.Daemon.Codes.{run-code}
use codex_bridge.Session.Handle.{ReplyPayload}
use codex_bridge.Session.Wait.{Outcome, waiting, exited, failed, panicked}
use codex_bridge.Session.Wait.Overflow.{IsLate, latest, latest-now, latest-IsBy}
use codex_bridge.Session.Wait.Ends.{AllowedExit, IsAllowed, broken}
use codex_bridge.Session.Verbs.Codes.{
  status-code, steer-code, interrupt-code, read-code, run-IsAllowed, wait-IsAllowed,
  reply-IsAllowed,
}
use codex_bridge.Session.Verbs as verbs
use codex_bridge.Daemon as daemon
use codex_bridge.Cli as cli
use codex_bridge.Cli.{
  Inputs, Command, ReplyArgs, run_with, reply_with, with_config, dispatch_with, dispatch, exit_code,
  outcome, into_value, prompt_text, developer_instructions, payload,
}

module _ {Run D I : Type 0} (b : Backend Run D) (into : I → Value) (i : Inputs) where
  abbrev IsWaitCode : WaitFlags → ℕ → Type 0
  IsWaitCode opts code =
      AllowedExit b opts code ⊎ ((code ≡ 101) × IsLate opts (latest i.now i.polls))

  -- The codes that a command may exit with: those of its wait, 0 without one, and 4 for an error.
  abbrev pub IsCode : Command Run D I → ℕ → Type 0
  IsCode (cli.run args) code = IsWaitCode (b.common args).wait code
  IsCode (cli.wait args) code = IsWaitCode args.wait code
  IsCode (cli.reply args) code = IsWaitCode args.wait code
  IsCode _ code = (code ≡ 0) ⊎ (code ≡ 4)

  abbrev IsCoded : Command Run D I → Outcome → Type 0
  IsCoded command (exited code) = IsCode command code
  IsCoded command panicked = IsCode command 101
  IsCoded command _ = Unit

  outcome-IsCoded :
      (command : Command Run D I) (r : Result ℕ) (w : World)
      → ((code : ℕ) → r ≡ ok code → IsCode command code)
      → IsCoded command (outcome (r, w)).0
  unfolding outcome
  outcome-IsCoded command (ok code) w h = h code refl
  outcome-IsCoded command (err e) w h = tt

  waited-IsCoded :
      (command : Command Run D I) (opts : WaitFlags)
      → ((code : ℕ) → IsWaitCode opts code → IsCode command code)
      → (o : Outcome) → IsAllowed b opts (latest i.now i.polls) o
      → IsCoded command o
  waited-IsCoded command opts h waiting a = tt
  waited-IsCoded command opts h (exited code) a = h code (inl a)
  waited-IsCoded command opts h (failed e) a = tt
  waited-IsCoded command opts h panicked a = h 101 (inr (refl, a))

  run-IsCoded :
      (config : Config) (global : Global) (args : Run) (p : Result String)
      (t : Result (Option String)) (w : World)
      → IsCoded (cli.run args) (run_with b into i config global args p t w).0
  unfolding run_with
  run-IsCoded config global args (err e) t w = tt
  run-IsCoded config global args (ok p) (err e) w = tt
  run-IsCoded config global args (ok p) (ok t) w =
      waited-IsCoded (cli.run args) (b.common args).wait (λ code a. a) _
        (run-IsAllowed b global args p t (resolve config b.state_name (b.common args)) i.events
          (latest i.now i.polls) i.now i.polls w (latest-now i.now i.polls)
          (latest-IsBy i.now i.polls))

  reply-IsCoded :
      (global : Global) (args : ReplyArgs D I) (p : Result (ReplyPayload D)) (w : World)
      → IsCoded (cli.reply args) (reply_with b into i global args p w).0
  unfolding reply_with
  reply-IsCoded global args (err e) w = tt
  reply-IsCoded global args (ok p) w =
      waited-IsCoded (cli.reply args) args.wait (λ code a. a) _
        (reply-IsAllowed b args.wait global args.thread (into_value b into args.request_id) p
          i.events (latest i.now i.polls) i.now i.polls w (latest-now i.now i.polls)
          (latest-IsBy i.now i.polls))

  with_config-IsCoded :
      (r : Result Config) (global : Global) (command : Command Run D I) (w : World)
      → IsCoded command (with_config b into i r global command w).0
  unfolding with_config dispatch_with
  with_config-IsCoded (err e) global command w = tt
  with_config-IsCoded (ok config) global (cli.run args) w =
      run-IsCoded config global args (prompt_text i (b.common args))
        (developer_instructions i (b.common args)) w
  with_config-IsCoded (ok config) global (cli.wait args) w =
      waited-IsCoded (cli.wait args) args.wait (λ code a. a) _
        (wait-IsAllowed b args.wait global args.thread i.events (latest i.now i.polls) i.now i.polls
          w (latest-now i.now i.polls) (latest-IsBy i.now i.polls))
  with_config-IsCoded (ok config) global (cli.reply args) w =
      reply-IsCoded global args (payload b into i args) w
  with_config-IsCoded (ok config) global (cli.steer args) w =
      outcome-IsCoded (cli.steer args) (verbs.steer b global args.thread args.turn args.text w).0 _
        λ code h. inl (steer-code b global args.thread args.turn args.text w code h)
  with_config-IsCoded (ok config) global (cli.interrupt args) w =
      outcome-IsCoded (cli.interrupt args) (verbs.interrupt b global args.thread w).0 _
        λ code h. inl (interrupt-code b global args.thread w code h)
  with_config-IsCoded (ok config) global (cli.status args) w =
      outcome-IsCoded (cli.status args) (verbs.status b global args.thread w).0 _
        λ code h. inl (status-code b global args.thread w code h)
  with_config-IsCoded (ok config) global (cli.read args) w =
      outcome-IsCoded (cli.read args) (verbs.read b global args.thread w).0 _
        λ code h. inl (read-code b global args.thread w code h)
  with_config-IsCoded (ok config) global (cli.manage args) w =
      outcome-IsCoded (cli.manage args) (daemon.run b w.outside global.url args.action w.machine).0
        _ λ code h. run-code b w.outside global.url args.action w.machine code h

  -- An error's code is one of each command's.
  error-IsCode : (command : Command Run D I) → IsCode command 4
  error-IsCode (cli.run args) = inl broken
  error-IsCode (cli.wait args) = inl broken
  error-IsCode (cli.reply args) = inl broken
  error-IsCode (cli.steer args) = inr refl
  error-IsCode (cli.interrupt args) = inr refl
  error-IsCode (cli.status args) = inr refl
  error-IsCode (cli.read args) = inr refl
  error-IsCode (cli.manage args) = inr refl

  exit-IsCode :
      (command : Command Run D I) (o : Outcome) (w : World) (code : ℕ)
      → IsCoded command o
      → (exit_code (o, w)).0 ≡ some code
      → IsCode command code
  unfolding exit_code
  exit-IsCode command waiting w code c h = absurd (ground arith)
  exit-IsCode command (exited n) w code c h =
      let e : n ≡ code = ground arith in subst (IsCode command) e c
  exit-IsCode command (failed x) w code c h =
      let e : 4 ≡ code = ground arith in subst (IsCode command) e (error-IsCode command)
  exit-IsCode command panicked w code c h =
      let e : 101 ≡ code = ground arith in subst (IsCode command) e c

  -- The exit code of a command that ends: `run`, `wait` and `reply` exit with 0, 1, 3 or 4, or with 2, and with that
  -- only without `follow` and `auto_decline`, or with 101, and with that only if a deadline overflows; every other command exits with 0 or 4.
  pub dispatch-IsCode :
      (global : Global) (command : Command Run D I) (w : World) (code : ℕ)
      → (exit_code (dispatch b into i global command w)).0 ≡ some code
      → IsCode command code
  unfolding dispatch
  dispatch-IsCode global command w code h =
      exit-IsCode command (dispatch b into i global command w).0
        (dispatch b into i global command w).1 code
        (with_config-IsCoded (load i.from_toml i.read_config w.outside) global command w) h
