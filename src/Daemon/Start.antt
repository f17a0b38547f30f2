-- ===== src/Daemon/Start.antt =====
-- The start of the daemon in src/core/daemon.rs: `bring_up` with `spawn`, and `ensure`.
use codex_bridge.Common.{
  ℕ, zero, suc, ◌+◌, ◌/◌, ◌^◌, Bool, true, false, String, Option, none, some, [], ◌∷◌, ◌⧺◌, leb,
  Result, ok, err, Act, unwrap_or, and_then,
}
use codex_bridge.Common.Decimal.{parse_unsigned, show_ℕ}
use codex_bridge.Json.{Value, object}
use codex_bridge.Host.{Outside, Machine, Command, slept, spawned, act}
use codex_bridge.Paths.{state_dir}
use codex_bridge.Process.{write_pid, detach}
use codex_bridge.Backend.{Backend}
use codex_bridge.Daemon.Probe.{poll_ms, http_url, probe_ready}

unfoldable pub started : Outside → Command → Result ℕ → Machine → Result ℕ × Machine
unfolding write_pid
started o command (err e) m = (err ("spawning daemon " ⧺ o.debug command ⧺ ": " ⧺ e), m)
started o command (ok pid) m = (ok pid, write_pid (o.writes_pid m.trace) pid m)

module _ {Run Decision : Type 0} (b : Backend Run Decision) (o : Outside) where
  unfoldable pub ready_timeout_ms : ℕ
  ready_timeout_ms =
      unwrap_or (and_then (o.env (b.env_prefix ⧺ "READY_TIMEOUT_MS")) (parse_unsigned (2 ^ 64)))
        15000

  abbrev pub log_file : String
  log_file = o.join (state_dir o b.state_name) "daemon.log"

  unfoldable pub launch : Result Command → Machine → Result ℕ × Machine
  unfolding act started detach
  launch (err e) m = (err e, m)
  launch (ok command) m =
      let m' = detach o m in
      started o command (o.spawns (spawned command ∷ m'.trace)) (act o (spawned command) 0 m')

  -- The state directory, the log file, the command, the process, the pid file.
  unfoldable pub spawn : String → Act Machine ℕ
  unfolding launch
  spawn ws_url m = elim (o.creates_dir (state_dir o b.state_name)) [
    | err e ↦ (err ("creating state dir " ⧺ state_dir o b.state_name ⧺ ": " ⧺ e), m)
    | ok _ ↦ elim (o.opens log_file) [
      | err e ↦ (err ("opening " ⧺ log_file ⧺ ": " ⧺ e), m)
      | ok _ ↦ elim o.clones_log [
        | err e ↦ (err ("duplicating the daemon log handle: " ⧺ e), m)
        | ok _ ↦ launch (b.daemon_command o ws_url) m
      ]
    ]
  ]

  unfoldable pub not_ready : String → Machine → Result Value × Machine
  not_ready ws_url m = (
    err (
        http_url ws_url
        ⧺ "/readyz did not answer within "
        ⧺ show_ℕ ready_timeout_ms
        ⧺ " ms (see "
        ⧺ log_file
        ⧺ ")"),
    m,
  )

  unfoldable pub report_ready : ℕ → Bool → Machine → Result Value × Machine
  report_ready offset report m = let (v, m') = b.after_ready o offset report m in (ok v, m')

  -- The loop of `bring_up`.
  unfoldable pub ready_loop : ℕ → String → ℕ → ℕ → Bool → Machine → Option (Result Value × Machine)
  unfolding act not_ready report_ready
  ready_loop zero ws_url deadline offset report m = none
  ready_loop (suc fuel) ws_url deadline offset report m =
      let (ready, m') = probe_ready o ws_url (act o (slept poll_ms) poll_ms m) in
      elim ready [
        | true ↦ some (report_ready offset report m')
        | false ↦ elim (leb deadline m'.clock) [
          | true ↦ some (not_ready ws_url m')
          | false ↦ ready_loop fuel ws_url deadline offset report m'
        ]
      ]

  -- `deadline` is taken behind the spawn.
  unfoldable pub await_ready : String → ℕ → Bool → Result ℕ × Machine → Result Value × Machine
  unfolding ready_loop not_ready
  await_ready ws_url offset report (err e, m) = (err e, m)
  await_ready ws_url offset report (ok pid, m) =
      unwrap_or
        (ready_loop (suc (ready_timeout_ms / poll_ms + 1)) ws_url (m.clock + ready_timeout_ms)
          offset report m)
        (not_ready ws_url m)

  unfoldable pub bring_up : String → Bool → Act Machine Value
  unfolding await_ready
  bring_up ws_url report m =
      let (ready, m') = probe_ready o ws_url m in
      elim ready [
        | true ↦ (ok (object []), m')
        | false ↦ await_ready ws_url (o.log_length m'.trace) report (spawn ws_url m')
      ]

  ensured : Result Value × Machine → Result (Unit {0}) × Machine
  ensured (ok _, m) = (ok tt, m)
  ensured (err e, m) = (err e, m)

  unfoldable pub ensure : String → Act Machine Unit
  unfolding ensured
  ensure ws_url m = ensured (bring_up ws_url false m)
