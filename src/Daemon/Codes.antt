-- ===== src/Daemon/Codes.antt =====
-- The exit codes of the daemon's actions (src/core/daemon.rs).
use codex_bridge.Common.{
  ◌≡◌, ◌⊎◌, inl, inr, ℕ, zero, suc, true, String, arith, Result, ok, err, Result-cases,
  Option-cases, Bool-cases,
}
use codex_bridge.Host.{Outside, Machine}
use codex_bridge.Backend.{Backend}
use codex_bridge.Daemon.{
  probe_ready, bring_up, read_pid, stop, stop_managed, stop_unmanaged, run, Action, status, start,
  shut_down, restart, restart_after, start_and_print, print_status, wait_until_down,
}

module _ {Run D : Type 0} (b : Backend Run D) (o : Outside) where
  stop-code :
      (url : String) (m : Machine) (code : ℕ)
      → (stop b o url m).0 ≡ ok code
      → (code ≡ 0) ⊎ (code ≡ 4)
  unfolding stop stop_managed stop_unmanaged
  stop-code url m code h = elim (Option-cases (read_pid m)) [
    | inr (pid, e) ↦ inl (ground arith)
    | inl e ↦ elim (Bool-cases (probe_ready o url m).0) [
      | inl f ↦ inr (ground arith)
      | inr f ↦ inl (ground arith)
    ]
  ]

  start-code :
      (url : String) (m : Machine) (code : ℕ) → (start_and_print b o url m).0 ≡ ok code → code ≡ 0
  unfolding start_and_print print_status
  start-code url m code h = elim (Result-cases (bring_up b o url true m).0) [
    | inl (fresh, e) ↦ ground arith
    | inr (x, e) ↦ absurd (ground arith)
  ]

  after-code :
      (url : String) (r : Result ℕ) (m : Machine) (code : ℕ)
      → ((c : ℕ) → r ≡ ok c → (c ≡ 0) ⊎ (c ≡ 4))
      → (restart_after b o url r m).0 ≡ ok code
      → (code ≡ 0) ⊎ (code ≡ 4)
  unfolding restart_after
  after-code url (err e) m code s h = absurd (ground arith)
  after-code url (ok zero) m code s h = inl (start-code url (wait_until_down b o url m) code h)
  after-code url (ok (suc n)) m code s h = s code h

  -- An action of the daemon that returns has the code 0 or 4.
  pub run-code :
      (url : String) (action : Action) (m : Machine) (code : ℕ)
      → (run b o url action m).0 ≡ ok code
      → (code ≡ 0) ⊎ (code ≡ 4)
  unfolding run print_status
  run-code url status m code h = inl (ground arith)
  run-code url start m code h = inl (start-code url m code h)
  run-code url shut_down m code h = stop-code url m code h
  run-code url restart m code h =
      after-code url (stop b o url m).0 (stop b o url m).1 code (λ c e. stop-code url m c e) h
