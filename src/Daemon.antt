-- ===== src/Daemon.antt =====
-- src/core/daemon.rs: readiness, start, stop and status of the daemon, over the machine of Host.antt.
-- Loops run on fuel and yield `none` without it; what is spawned and signalled is in the trace.
mod Probe
mod Start
pub mod Waits
pub mod Quiet
pub mod Signals
pub mod Owned
pub mod Handles
pub mod Codes
mod Tests
pub mod Spawns
use codex_bridge.Common.{
  ℕ, zero, suc, ◌+◌, ◌/◌, ◌^◌, Bool, true, false, String, Option, none, some, [], ◌∷◌, ◌⧺◌, ◌==◌,
  leb, Result, ok, err, Act, if◌then◌else◌, unwrap_or, and_then, is_some_and,
}
use codex_bridge.Common.Decimal.{pos, parse_unsigned, show_ℕ}
use codex_bridge.Common.Text.{split_once, before_slash, contains, trim_start, trim_end}
use codex_bridge.Json.{Value, null, bool, num, int, str, object, set_key, extend_fields}
use codex_bridge.Host.{Outside, Machine, Command, probed, slept, spawned, printed, warned, act}
use codex_bridge.Paths.{state_dir}
use codex_bridge.Process.{read_pid, clear_pid, write_pid, pid_value, alive, terminate, detach}
use codex_bridge.Backend.{Backend}
unfoldable pub use Probe.*
unfoldable pub use Start.*

-- `shut_down` is the action `stop`.
pub data Action : Type 0 where
  status start shut_down restart : Action

unfoldable pub emit : Outside → Value → Machine → Machine
unfolding act
emit o value m = act o (printed value) 0 m

module _ {Run Decision : Type 0} (b : Backend Run Decision) (o : Outside) where
  pub still_up : String → ℕ → Machine → Machine
  unfolding act
  still_up ws_url budget m =
      act o
        (warned (
          http_url ws_url
          ⧺ " still answers "
          ⧺ show_ℕ budget
          ⧺ " ms after the stop; starting anyway"))
        0 m

  -- The loop of `wait_until_down`.
  unfoldable pub down_loop : ℕ → String → ℕ → ℕ → Machine → Option Machine
  unfolding act still_up
  down_loop zero ws_url budget deadline m = none
  down_loop (suc fuel) ws_url budget deadline m =
      let (ready, m') = probe_ready o ws_url m in
      elim ready [
        | false ↦ some m'
        | true ↦ elim (leb deadline m'.clock) [
          | true ↦ some (still_up ws_url budget m')
          | false ↦ down_loop fuel ws_url budget deadline (act o (slept poll_ms) poll_ms m')
        ]
      ]

  unfoldable pub wait_until_down : String → Machine → Machine
  unfolding down_loop still_up
  wait_until_down ws_url m =
      let budget = ready_timeout_ms b o / 2 in
      unwrap_or (down_loop (suc (budget / poll_ms + 1)) ws_url budget (m.clock + budget) m)
        (still_up ws_url budget m)

  with_pid : Option ℕ → Value → Value
  with_pid none v = v
  with_pid (some pid) v = set_key "pid" (num (int (pos pid))) v

  unfoldable pub status_value : String → Value → Machine → Value × Machine
  unfolding with_pid read_pid alive
  status_value ws_url fresh m =
      let pid = read_pid m in
      let managed = is_some_and (alive o m) pid in
      let (ready, m') = probe_ready o ws_url m in
      (
        extend_fields
            (extend_fields
              (with_pid pid (
                object
                  (("url", str ws_url) ∷ ("ready", bool ready) ∷ ("managed", bool managed) ∷ [])))
              (b.daemon_fields o m'))
            fresh,
        m',
      )

  pub print_status : String → Value → Machine → Result ℕ × Machine
  unfolding status_value emit
  print_status ws_url fresh m =
      let (value, m') = status_value ws_url fresh m in (ok 0, emit o value m')

  abbrev pub stopped_event : String → Option ℕ → Value
  stopped_event ws_url pid =
      object (("event", str "stopped") ∷ ("url", str ws_url) ∷ ("pid", pid_value pid) ∷ [])

  pub stop_managed : String → ℕ → Machine → Result ℕ × Machine
  unfolding alive terminate clear_pid emit
  stop_managed ws_url pid m =
      let m' = if alive o m pid then terminate o pid m else m in
      (ok 0, emit o (stopped_event ws_url (some pid)) (clear_pid o m'))

  pub stop_unmanaged : String → Machine → Result ℕ × Machine
  unfolding emit
  stop_unmanaged ws_url m =
      let (ready, m') = probe_ready o ws_url m in
      elim ready [
        | true ↦ (
          ok exit_error,
          emit o
              (object (
                ("event", str "error")
                ∷ ("message", str ("server at " ⧺ ws_url ⧺ " is not managed by agent-bridge"))
                ∷ []))
              m',
        )
        | false ↦ (ok 0, emit o (stopped_event ws_url none) m')
      ]

  unfoldable pub stop : String → Act Machine ℕ
  unfolding read_pid stop_managed stop_unmanaged
  stop ws_url m = elim (read_pid m) [
    | some pid ↦ stop_managed ws_url pid m
    | none ↦ stop_unmanaged ws_url m
  ]

  pub start_and_print : String → Act Machine ℕ
  unfolding bring_up print_status
  start_and_print ws_url m =
      let (r, m') = bring_up b o ws_url true m in
      elim r [ ok fresh ↦ print_status ws_url fresh m' | err e ↦ (err e, m') ]

  -- A stop that refuses ends the restart.
  restart_after : String → Result ℕ → Act Machine ℕ
  unfolding wait_until_down start_and_print
  restart_after ws_url (err e) m = (err e, m)
  restart_after ws_url (ok zero) m = start_and_print ws_url (wait_until_down ws_url m)
  restart_after ws_url (ok (suc code)) m = (ok (suc code), m)

  unfoldable pub run : String → Action → Act Machine ℕ
  unfolding print_status start_and_print stop restart_after
  run ws_url status m = print_status ws_url (object []) m
  run ws_url start m = start_and_print ws_url m
  run ws_url shut_down m = stop ws_url m
  run ws_url restart m = let (r, m') = stop ws_url m in restart_after ws_url r m'
