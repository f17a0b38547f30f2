-- ===== src/Daemon/Owned.antt =====
-- The process that a start of src/core/daemon.rs spawns, as the next stop finds it.
use codex_bridge.Common.{
  if◌then◌else◌, ◌≡◌, refl, ◌∙◌, inl, inr, ℕ, ◌^◌, ◌<◌, Bool, true, false, String, none, some, ◌∷◌,
  Result, ok, Result-cases, ap,
}
use codex_bridge.Common.Decimal.{show_ℕ}
use codex_bridge.Common.Decimal.Unsigned.{parse_unsigned-trim}
use codex_bridge.Json.{Value}
use codex_bridge.Host.{Outside, Machine, act}
use codex_bridge.Process.{read_pid, clear_pid, alive, terminate, killing}
use codex_bridge.Backend.{Backend}
use codex_bridge.Daemon.{
  start, shut_down, probe_ready, bring_up, spawn, stop, stop_managed, start_and_print, print_status,
  status_value, run, emit,
}
use codex_bridge.Daemon.Quiet.{probe-view, await-view}
use codex_bridge.Daemon.Signals.{
  signals, killing-signals, end_of, lives, killing-end_of, alive-lives, read_pid-small,
}

-- A number that was written to the pid file is read back.
read_pid-show :
    (n : ℕ) (m : Machine) → n < 2 ^ 32 → m.pid_file ≡ some (show_ℕ n) → read_pid m ≡ some n
unfolding read_pid
read_pid-show n m h e = rw e (parse_unsigned-trim (2 ^ 32) n h)

module _ {Run Decision : Type 0} (b : Backend Run Decision) (o : Outside) where
  -- What a backend does when its daemon is ready keeps the pid file.
  abbrev pub KeepsPid : Type 0
  KeepsPid =
      (offset : ℕ) (report : Bool) (m : Machine)
      → (b.after_ready o offset report m).1.pid_file ≡ m.pid_file

  print_status-pid :
      (ws_url : String) (fresh : Value) (m : Machine)
      → (print_status b o ws_url fresh m).1.pid_file ≡ m.pid_file
  unfolding print_status status_value emit act
  print_status-pid ws_url fresh m = probe-view (λ m. m.pid_file) o (λ m. refl) ws_url m

  bring_up-pid :
      (ws_url : String) (m : Machine)
      → KeepsPid
      → (probe_ready o ws_url m).0 ≡ false
      → (bring_up b o ws_url true m).1.pid_file
        ≡ (spawn b o ws_url (probe_ready o ws_url m).1).1.pid_file
  unfolding bring_up
  bring_up-pid ws_url m idle quiet =
      let m1 = (probe_ready o ws_url m).1 in
      rw (quiet, bring_up)
        (await-view (λ m. m.pid_file) o (λ m. refl) (λ ms m. refl) b ws_url (o.log_length m1.trace)
          true (spawn b o ws_url m1) idle)

  start-pid :
      (ws_url : String) (m : Machine)
      → KeepsPid
      → (probe_ready o ws_url m).0 ≡ false
      → (run b o ws_url start m).1.pid_file
        ≡ (spawn b o ws_url (probe_ready o ws_url m).1).1.pid_file
  unfolding run start_and_print
  start-pid ws_url m idle quiet = elim (Result-cases (bring_up b o ws_url true m).0) [
    | inl (v, e) ↦
        rw (e, start_and_print)
          (print_status-pid ws_url v (bring_up b o ws_url true m).1
            ∙ bring_up-pid ws_url m idle quiet)
    | inr (x, e) ↦ rw (e, start_and_print) (bring_up-pid ws_url m idle quiet)
  ]

  -- The process `pid` of the pid file is ended, and forgotten unless the file cannot be removed.
  abbrev pub IsStopped : ℕ → Machine → Result ℕ × Machine → Type 0
  IsStopped pid m r =
      (r.0 ≡ ok 0)
      × (read_pid r.1 ≡ (if o.removes_pid (end_of o.windows pid ∷ m.trace) then none else some pid))
      × (signals r.1.trace ≡ end_of o.windows pid ∷ signals m.trace)

  removal :
      (m : Machine) (pid : ℕ) (removed : Bool)
      → read_pid m ≡ some pid
      → read_pid (record m { pid_file = if removed then none else m.pid_file })
        ≡ (if removed then none else some pid)
  unfolding read_pid
  removal m pid true e = refl
  removal m pid false e = e

  pub stop-IsStopped :
      (ws_url : String) (pid : ℕ) (m : Machine)
      → read_pid m ≡ some pid
      → lives o.windows o m pid ≡ true
      → IsStopped pid m (run b o ws_url shut_down m)
  unfolding run stop stop_managed terminate clear_pid emit act read_pid
  stop-IsStopped ws_url pid m e l =
      let small : pid < 2 ^ 32 = read_pid-small m pid e in
      let known : alive o m pid ≡ true = alive-lives o m pid small ∙ l in
      let ended : killing o.windows pid ≡ end_of o.windows pid =
        killing-end_of o.windows pid small in
      rw (e, stop, known, stop_managed)
        (
          refl,
          removal m pid (o.removes_pid (killing o.windows pid ∷ m.trace)) e
              ∙ ap (λ x. if o.removes_pid (x ∷ m.trace) then none else some pid) ended,
          killing-signals o.windows pid m.trace ∙ ap (λ x. x ∷ signals m.trace) ended,
        )

  -- Where no daemon answers, a start that spawns a process and writes its number, of 32 bits, to the pid file
  -- makes it the process of the next stop, whether the daemon became ready in time or not: if the process lives, that
  -- stop succeeds, ends it by one SIGTERM to the number as an `i32` on Unix and one `taskkill` on Windows, and forgets
  -- it unless the pid file cannot be removed. This holds provided that the backend's own work behind a start keeps the
  -- pid file.
  pub start_then_stop :
      (ws_url : String) (m m1 : Machine) (pid : ℕ)
      → KeepsPid
      → (probe_ready o ws_url m).0 ≡ false
      → spawn b o ws_url (probe_ready o ws_url m).1 ≡ (ok pid, m1)
      → m1.pid_file ≡ some (show_ℕ pid)
      → pid < 2 ^ 32
      → lives o.windows o (run b o ws_url start m).1 pid ≡ true
      → IsStopped pid
          (run b o ws_url start m).1
          (run b o ws_url shut_down (run b o ws_url start m).1)
  start_then_stop ws_url m m1 pid idle quiet e filed small alive_yet =
      let m2 = (run b o ws_url start m).1 in
      let same : m2.pid_file ≡ some (show_ℕ pid) =
        start-pid ws_url m idle quiet
        ∙ (ap {A = Result ℕ × Machine} (λ r. r.1.pid_file) e ∙ filed) in
      stop-IsStopped ws_url pid m2 (read_pid-show pid m2 small same) alive_yet
