-- ===== src/Daemon/Signals.antt =====
-- Which processes src/core/daemon.rs ends.
use codex_bridge.Common.{
  ltb, ◌^◌, ◌-◌, ◌<◌, is_some_and, and_then, ◌⧺◌, ap, sym, arith, ◌≡◌, refl, ◌∙◌, inl, inr, ℕ, zero,
  suc, ◌+◌, Bool, true, false, leb, Bool-cases, String, Option, ◌++◌, Option-cases, none, some,
  List, [], ◌∷◌, unwrap_or, subst, ◌/◌, Result, ok, err, Result-cases, if◌then◌else◌,
}
use codex_bridge.Common.Text.{contains, trim_start, trim_end}
use codex_bridge.Common.Decimal.{ℤ, pos, negsuc, show_ℕ, parse_unsigned}
use codex_bridge.Common.Decimal.Unsigned.{parse_unsigned-small}
use codex_bridge.Json.{Value, object}
use codex_bridge.Host.{
  Outside, Machine, Command, Effect, act, slept, probed, spawned, signalled, ran, uninherited,
  printed, warned,
}
use codex_bridge.Paths.{state_dir}
use codex_bridge.Process.{read_pid, clear_pid, alive, listed, terminate, killing, as_i32, detach}
use codex_bridge.Backend.{Backend}
use codex_bridge.Daemon.Quiet.{started-view, detach-view, probe-view, await-view}
use codex_bridge.Daemon.{
  Action, status, start, shut_down, restart, probe_ready, bring_up, spawn, launch, log_file,
  poll_ms, down_loop, still_up, wait_until_down, ready_timeout_ms, stop, stop_managed,
  stop_unmanaged, status_value, print_status, start_and_print, restart_after, run, emit,
}

-- What a trace does to end processes: its signals and the programs that it runs, newest first.
abbrev pub signals : List Effect → List Effect
signals [] = []
signals (signalled pid signal ∷ trace) = signalled pid signal ∷ signals trace
signals (ran command ∷ trace) = ran command ∷ signals trace
signals (uninherited handle ∷ trace) = signals trace
signals (probed ∷ trace) = signals trace
signals (slept ms ∷ trace) = signals trace
signals (spawned command ∷ trace) = signals trace
signals (printed value ∷ trace) = signals trace
signals (warned text ∷ trace) = signals trace

probe-signals :
    (o : Outside) (ws_url : String) (m : Machine)
    → signals (probe_ready o ws_url m).1.trace ≡ signals m.trace
unfolding act
probe-signals o = probe-view (λ m. signals m.trace) o (λ m. refl)

pub killing-signals :
    (windows : Bool) (pid : ℕ) (trace : List Effect)
    → signals (killing windows pid ∷ trace) ≡ killing windows pid ∷ signals trace
unfolding killing
killing-signals true pid trace = refl
killing-signals false pid trace = refl

-- A number of 32 bits, read as two's complement.
abbrev pub target : ℕ → ℤ
target pid = if ltb pid (2 ^ 31) then pos pid else negsuc (2 ^ 32 - 1 - pid)

-- The one effect that ends a process: `taskkill` on Windows, signal 15 elsewhere.
abbrev pub end_of : Bool → ℕ → Effect
end_of true pid =
    ran (record { program = "taskkill"; args = "/PID" ∷ show_ℕ pid ∷ "/T" ∷ "/F" ∷ [] })
end_of false pid = signalled (target pid) 15

-- The process is in the list of tasks, or takes the signal 0.
abbrev pub lives : Bool → Outside → Machine → ℕ → Bool
lives true o m pid =
    is_some_and (λ out. contains ("\"" ⧺ (show_ℕ pid ⧺ "\"")) out.stdout)
      (o.outputs m.trace (record {
        program = "tasklist";
        args = "/FI" ∷ ("PID eq " ⧺ show_ℕ pid) ∷ "/NH" ∷ "/FO" ∷ "CSV" ∷ [];
      }))
lives false o m pid = o.kills m.trace (target pid) 0

as_i32-target : (pid : ℕ) → pid < 2 ^ 32 → as_i32 pid ≡ target pid
unfolding as_i32
as_i32-target pid h = ground arith

pub killing-end_of :
    (windows : Bool) (pid : ℕ) → pid < 2 ^ 32 → killing windows pid ≡ end_of windows pid
unfolding killing
killing-end_of true pid h = refl
killing-end_of false pid h = ap (λ z. signalled z 15) (as_i32-target pid h)

pub alive-lives :
    (o : Outside) (m : Machine) (pid : ℕ) → pid < 2 ^ 32 → alive o m pid ≡ lives o.windows o m pid
unfolding alive listed
alive-lives o m pid h = by_platform o.windows
  where
    by_platform :
        (windows : Bool)
        → elim windows [ true ↦ listed o m pid | false ↦ o.kills m.trace (as_i32 pid) 0 ]
          ≡ lives windows o m pid
    by_platform true = refl
    by_platform false = ap (λ z. o.kills m.trace z 0) (as_i32-target pid h)

pub read_pid-small : (m : Machine) (pid : ℕ) → read_pid m ≡ some pid → pid < 2 ^ 32
unfolding read_pid
read_pid-small m pid h = elim (Option-cases m.pid_file) [
  | inl e ↦ absurd (ground arith)
  | inr (raw, e) ↦ parse_unsigned-small (2 ^ 32) pid (trim_end (trim_start raw)) (
      sym (ap (λ f. and_then f (λ raw. parse_unsigned (2 ^ 32) (trim_end (trim_start raw)))) e) ∙ h)
]

-- What a stop owes: the end of the process of the pid file, if there is one and it lives.
abbrev pub due_to : Outside → Machine → Option ℕ → List Effect
due_to o m none = []
due_to o m (some pid) = if lives o.windows o m pid then end_of o.windows pid ∷ [] else []

abbrev pub due : Outside → Machine → List Effect
due o m = due_to o m (read_pid m)

module _ {Run Decision : Type 0} (b : Backend Run Decision) (o : Outside) where
  launch-signals :
      (command : Result Command) (m : Machine)
      → signals (launch b o command m).1.trace ≡ signals m.trace
  unfolding launch act
  launch-signals (err e) m = refl
  launch-signals (ok command) m =
      let m1 = detach o m in
      started-view (λ m. signals m.trace) o command (o.spawns (spawned command ∷ m1.trace))
        (act o (spawned command) 0 m1) (λ raw. refl)
      ∙ detach-view (λ m. signals m.trace) o (λ handle m. refl) m

  spawn-signals :
      (ws_url : String) (m : Machine) → signals (spawn b o ws_url m).1.trace ≡ signals m.trace
  unfolding spawn
  spawn-signals ws_url m = elim (Result-cases (o.creates_dir (state_dir o b.state_name))) [
    | inr (x, e) ↦ rw (e, spawn) refl
    | inl (a, e) ↦ elim (Result-cases (o.opens (log_file b o))) [
      | inr (x, f) ↦ rw (e, f, spawn) refl
      | inl (c, f) ↦ elim (Result-cases o.clones_log) [
        | inr (x, g) ↦ rw (e, f, g, spawn) refl
        | inl (d, g) ↦ rw (e, f, g, spawn) (launch-signals (b.daemon_command o ws_url) m)
      ]
    ]
  ]

  -- What a backend does when its daemon is ready ends no process.
  abbrev pub SignalsNothing : Type 0
  SignalsNothing =
      (offset : ℕ) (report : Bool) (m : Machine)
      → signals (b.after_ready o offset report m).1.trace ≡ signals m.trace

  bring_up-signals :
      (ws_url : String) (report : Bool) (m : Machine)
      → SignalsNothing
      → signals (bring_up b o ws_url report m).1.trace ≡ signals m.trace
  unfolding bring_up
  bring_up-signals ws_url report m idle =
      let m1 = (probe_ready o ws_url m).1 in
      elim (Bool-cases (probe_ready o ws_url m).0) [
        | inl e ↦ rw (e, bring_up) (probe-signals o ws_url m)
        | inr e ↦
            rw (e, bring_up)
              (await-view (λ m. signals m.trace) o (λ m. refl) (λ ms m. refl) b ws_url
                  (o.log_length m1.trace) report (spawn b o ws_url m1) idle
                ∙ (spawn-signals ws_url m1 ∙ probe-signals o ws_url m))
      ]

  IsKept : List Effect → Option Machine → Type 0
  IsKept x none = Unit
  IsKept x (some m) = signals m.trace ≡ x

  down_loop-signals :
      (f : ℕ) (ws_url : String) (budget deadline : ℕ) (m : Machine)
      → IsKept (signals m.trace) (down_loop b o f ws_url budget deadline m)
  unfolding down_loop still_up act IsKept
  down_loop-signals zero ws_url budget deadline m = tt
  down_loop-signals (suc f) ws_url budget deadline m =
      let m1 = (probe_ready o ws_url m).1 in
      let s : signals m1.trace ≡ signals m.trace = probe-signals o ws_url m in
      elim (Bool-cases (probe_ready o ws_url m).0) [
        | inr e ↦ rw (e, down_loop) s
        | inl e ↦ elim (Bool-cases (leb deadline m1.clock)) [
          | inl d ↦ rw (e, d, down_loop) s
          | inr d ↦
              rw (e, d, down_loop)
                (subst
                  (λ x.
                    IsKept x
                      (down_loop b o f ws_url budget deadline (act o (slept poll_ms) poll_ms m1)))
                  s (down_loop-signals f ws_url budget deadline (act o (slept poll_ms) poll_ms m1)))
        ]
      ]

  machine_kept :
      (x : List Effect) (r : Option Machine) (d : Machine)
      → IsKept x r
      → signals d.trace ≡ x
      → signals (unwrap_or r d).trace ≡ x
  unfolding IsKept
  machine_kept x none d k e = e
  machine_kept x (some r) d k e = k

  wait_until_down-signals :
      (ws_url : String) (m : Machine)
      → signals (wait_until_down b o ws_url m).trace ≡ signals m.trace
  unfolding wait_until_down still_up act
  wait_until_down-signals ws_url m =
      machine_kept (signals m.trace) _ _
        (down_loop-signals (suc (ready_timeout_ms b o / 2 / poll_ms + 1)) ws_url
          (ready_timeout_ms b o / 2) (m.clock + ready_timeout_ms b o / 2) m)
        refl

  print_status-signals :
      (ws_url : String) (fresh : Value) (m : Machine)
      → signals (print_status b o ws_url fresh m).1.trace ≡ signals m.trace
  unfolding print_status status_value emit act
  print_status-signals ws_url fresh m = probe-signals o ws_url m

  start_and_print-signals :
      (ws_url : String) (m : Machine)
      → SignalsNothing
      → signals (start_and_print b o ws_url m).1.trace ≡ signals m.trace
  unfolding start_and_print
  start_and_print-signals ws_url m idle = elim (Result-cases (bring_up b o ws_url true m).0) [
    | inl (v, e) ↦
        rw (e, start_and_print)
          (print_status-signals ws_url v (bring_up b o ws_url true m).1
            ∙ bring_up-signals ws_url true m idle)
    | inr (x, e) ↦ rw (e, start_and_print) (bring_up-signals ws_url true m idle)
  ]

  pub stop_managed-signals :
      (ws_url : String) (pid : ℕ) (m : Machine)
      → pid < 2 ^ 32
      → signals (stop_managed b o ws_url pid m).1.trace ≡ due_to o m (some pid) ++ signals m.trace
  unfolding stop_managed terminate clear_pid emit act alive
  stop_managed-signals ws_url pid m h =
      let same : alive o m pid ≡ lives o.windows o m pid = alive-lives o m pid h in
      elim (Bool-cases (alive o m pid)) [
        | inl l ↦
            rw (l, sym same ∙ l, stop_managed)
              (killing-signals o.windows pid m.trace
                ∙ ap (λ x. x ∷ signals m.trace) (killing-end_of o.windows pid h))
        | inr d ↦ rw (d, sym same ∙ d, stop_managed) refl
      ]

  stop_unmanaged-signals :
      (ws_url : String) (m : Machine)
      → signals (stop_unmanaged b o ws_url m).1.trace ≡ signals m.trace
  unfolding stop_unmanaged emit act
  stop_unmanaged-signals ws_url m = elim (Bool-cases (probe_ready o ws_url m).0) [
    | inl e ↦ rw (e, stop_unmanaged) (probe-signals o ws_url m)
    | inr e ↦ rw (e, stop_unmanaged) (probe-signals o ws_url m)
  ]

  stop-signals :
      (ws_url : String) (m : Machine)
      → signals (stop b o ws_url m).1.trace ≡ due o m ++ signals m.trace
  unfolding stop
  stop-signals ws_url m = elim (Option-cases (read_pid m)) [
    | inl e ↦ rw (e, stop) (stop_unmanaged-signals ws_url m)
    | inr (pid, e) ↦ rw (e, stop) (stop_managed-signals ws_url pid m (read_pid-small m pid e))
  ]

  restart_after-signals :
      (ws_url : String) (r : Result ℕ) (m : Machine)
      → SignalsNothing
      → signals (restart_after b o ws_url r m).1.trace ≡ signals m.trace
  unfolding restart_after
  restart_after-signals ws_url (err e) m idle = refl
  restart_after-signals ws_url (ok zero) m idle =
      start_and_print-signals ws_url (wait_until_down b o ws_url m) idle
      ∙ wait_until_down-signals ws_url m
  restart_after-signals ws_url (ok (suc code)) m idle = refl

  -- What an action owes.
  abbrev pub owed : Action → Machine → List Effect
  owed status m = []
  owed start m = []
  owed shut_down m = due o m
  owed restart m = due o m

  -- Status and start end no process. Stop and restart end the process of the pid file, if the file has a number and
  -- that process lives, once, and else no process: by signal 15 to the number read as 32 bits with a sign on Unix, where
  -- it lives if it takes signal 0, and on Windows by `taskkill`, where it lives if `tasklist` has it. This holds provided that the backend's own work behind a start ends no process.
  pub run-signals :
      (ws_url : String) (action : Action) (m : Machine)
      → SignalsNothing
      → signals (run b o ws_url action m).1.trace ≡ owed action m ++ signals m.trace
  unfolding run
  run-signals ws_url status m idle = print_status-signals ws_url (object []) m
  run-signals ws_url start m idle = start_and_print-signals ws_url m idle
  run-signals ws_url shut_down m idle = stop-signals ws_url m
  run-signals ws_url restart m idle =
      restart_after-signals ws_url (stop b o ws_url m).0 (stop b o ws_url m).1 idle
      ∙ stop-signals ws_url m
