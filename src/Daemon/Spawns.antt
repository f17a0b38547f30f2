-- ===== src/Daemon/Spawns.antt =====
-- How often src/core/daemon.rs spawns the daemon, and a restart that is refused.
use codex_bridge.Common.{
  ◌≡◌, refl, inl, inr, ℕ, suc, ◌≤◌, Bool, true, Bool-cases, String, none, List, [], ◌∷◌, arith,
  Result, ok, err, Result-cases,
}
use codex_bridge.Host.{
  Outside, Machine, Command, Effect, act, slept, probed, spawned, signalled, ran, uninherited,
  printed, warned,
}
use codex_bridge.Paths.{state_dir}
use codex_bridge.Process.{read_pid, detach}
use codex_bridge.Backend.{Backend}
use codex_bridge.Daemon.Quiet.{started-view, detach-view, probe-view, await-view}
use codex_bridge.Daemon.{
  probe_ready, await_ready, bring_up, spawn, launch, log_file, started, emit, stop, stop_unmanaged,
  run, restart, restart_after, exit_error,
}

-- The processes that a trace spawned.
abbrev pub spawns : List Effect → ℕ
spawns [] = 0
spawns (spawned command ∷ trace) = suc (spawns trace)
spawns (probed ∷ trace) = spawns trace
spawns (slept ms ∷ trace) = spawns trace
spawns (signalled pid signal ∷ trace) = spawns trace
spawns (ran command ∷ trace) = spawns trace
spawns (uninherited handle ∷ trace) = spawns trace
spawns (printed value ∷ trace) = spawns trace
spawns (warned text ∷ trace) = spawns trace

probe-spawns :
    (o : Outside) (ws_url : String) (m : Machine)
    → spawns (probe_ready o ws_url m).1.trace ≡ spawns m.trace
unfolding act
probe-spawns o = probe-view (λ m. spawns m.trace) o (λ m. refl)

module _ {Run Decision : Type 0} (b : Backend Run Decision) (o : Outside) where
  launch-spawns :
      (command : Result Command) (m : Machine)
      → spawns (launch b o command m).1.trace ≤ suc (spawns m.trace)
  unfolding launch act
  launch-spawns (err e) m = omega arith
  launch-spawns (ok command) m =
      let m1 = detach o m in
      let kept : spawns m1.trace ≡ spawns m.trace =
        detach-view (λ m. spawns m.trace) o (λ handle m. refl) m in
      let s : spawns
            (started o command (o.spawns (spawned command ∷ m1.trace))
              (act o (spawned command) 0 m1)).1.trace
          ≡ suc (spawns m1.trace) =
        started-view (λ m. spawns m.trace) o command (o.spawns (spawned command ∷ m1.trace))
          (act o (spawned command) 0 m1) (λ raw. refl) in
      omega arith

  spawn-spawns :
      (ws_url : String) (m : Machine) → spawns (spawn b o ws_url m).1.trace ≤ suc (spawns m.trace)
  unfolding spawn
  spawn-spawns ws_url m = elim (Result-cases (o.creates_dir (state_dir o b.state_name))) [
    | inr (x, e) ↦ rw (e, spawn) (omega arith)
    | inl (a, e) ↦ elim (Result-cases (o.opens (log_file b o))) [
      | inr (x, f) ↦ rw (e, f, spawn) (omega arith)
      | inl (c, f) ↦ elim (Result-cases o.clones_log) [
        | inr (x, g) ↦ rw (e, f, g, spawn) (omega arith)
        | inl (d, g) ↦ rw (e, f, g, spawn) (launch-spawns (b.daemon_command o ws_url) m)
      ]
    ]
  ]

  -- What a backend does when its daemon is ready spawns nothing.
  abbrev pub SpawnsNothing : Type 0
  SpawnsNothing =
      (offset : ℕ) (report : Bool) (m : Machine)
      → spawns (b.after_ready o offset report m).1.trace ≡ spawns m.trace

  module _ (idle : SpawnsNothing) where
    -- A start spawns the daemon at most once, and not at all where a daemon already answers, provided that
    -- the backend's own work behind the start spawns nothing.
    pub bring_up-spawns :
        (ws_url : String) (report : Bool) (m : Machine)
        → (spawns (bring_up b o ws_url report m).1.trace ≤ suc (spawns m.trace))
          × ((probe_ready o ws_url m).0 ≡ true
              → spawns (bring_up b o ws_url report m).1.trace ≡ spawns m.trace)
    unfolding bring_up
    bring_up-spawns ws_url report m =
        let s : spawns (probe_ready o ws_url m).1.trace ≡ spawns m.trace =
          probe-spawns o ws_url m in
        elim (Bool-cases (probe_ready o ws_url m).0) [
          | inl e ↦ rw (e, bring_up) (omega arith, λ _. s)
          | inr e ↦
              rw (e, bring_up)
                (let m1 = (probe_ready o ws_url m).1 in
                  let a : spawns
                        (await_ready b o ws_url (o.log_length m1.trace) report
                          (spawn b o ws_url m1)).1.trace
                      ≡ spawns (spawn b o ws_url m1).1.trace =
                    await-view (λ m. spawns m.trace) o (λ m. refl) (λ ms m. refl) b ws_url
                      (o.log_length m1.trace) report (spawn b o ws_url m1) idle in
                  let c : spawns (spawn b o ws_url m1).1.trace ≤ suc (spawns m1.trace) =
                    spawn-spawns ws_url m1 in
                  (omega arith, λ h. absurd (ground arith)))
        ]

  -- A restart beside a server that answers and has no pid file is refused: it ends with the exit code of an
  -- error as the stop does, and nothing is spawned.
  pub restart_refused :
      (ws_url : String) (m : Machine)
      → read_pid m ≡ none
      → (probe_ready o ws_url m).0 ≡ true
      → (run b o ws_url restart m ≡ stop b o ws_url m)
        × ((run b o ws_url restart m).0 ≡ ok exit_error)
        × (spawns (run b o ws_url restart m).1.trace ≡ spawns m.trace)
  unfolding run stop stop_unmanaged restart_after emit act
  restart_refused ws_url m unmanaged answers =
      let s : spawns (probe_ready o ws_url m).1.trace ≡ spawns m.trace = probe-spawns o ws_url m in
      rw (unmanaged, answers, stop, stop_unmanaged, run) (refl, refl, s)
