-- ===== src/Daemon/Tests.antt =====
-- The daemon's theorems over Dsh, on the outside of Samples.antt.
use codex_bridge.Common.{
  ◌≡◌, ◌⊎◌, refl, ℕ, zero, suc, ◌+◌, ◌/◌, ◌≤◌, Bool, true, false, String, Option, none, some, List,
  [], ◌∷◌, ◌++◌, arith, Result, ok, err,
}
use codex_bridge.Dsh.{dsh}
use codex_bridge.Codex.{codex}
use codex_bridge.Samples.{outside, machine}
use codex_bridge.Daemon.{
  probe_ready, bring_up, spawn, run, start, shut_down, restart, ready_timeout_ms, await_ready,
}
use codex_bridge.Daemon.Waits.{IsVerdict, await_ready-ends}
use codex_bridge.Common.Decimal.{pos, show_ℕ}
use codex_bridge.Host.{Outside, Machine, signalled}
use codex_bridge.Daemon.Signals.{SignalsNothing, signals, owed, run-signals}
use codex_bridge.Daemon.Owned.{KeepsPid, IsStopped, start_then_stop}
use codex_bridge.Daemon.Handles.{IsDetached, KeepsHandles, bring_up-IsDetached}
use codex_bridge.Daemon.Spawns.{SpawnsNothing, spawns, bring_up-spawns}

abbrev url : String
url = "ws://127.0.0.1:4500"

-- Codex does nothing behind the start.
codex-SpawnsNothing : SpawnsNothing (codex false) outside
unfolding codex
codex-SpawnsNothing offset report m = refl

await_ready-ends_example :
    IsVerdict dsh outside url
      (1000 + ready_timeout_ms dsh outside)
      0
      true
      (await_ready dsh outside url 0 true (ok 77, machine))
await_ready-ends_example = await_ready-ends dsh outside url 0 true 77 machine

bring_up-spawns_example :
    (spawns (bring_up (codex false) outside url true machine).1.trace ≤ 1)
    × ((probe_ready outside url machine).0 ≡ true
        → spawns (bring_up (codex false) outside url true machine).1.trace ≡ 0)
bring_up-spawns_example = bring_up-spawns (codex false) outside codex-SpawnsNothing url true machine

codex-SignalsNothing : SignalsNothing (codex false) outside
unfolding codex
codex-SignalsNothing offset report m = refl

-- A pid file with a line's end.
abbrev managed : Machine
managed = record machine { pid_file = some "77\n" }

run-signals_example :
    signals (run (codex false) outside url restart managed).1.trace
    ≡ owed (codex false) outside restart managed ++ []
run-signals_example = run-signals (codex false) outside url restart managed codex-SignalsNothing

-- What it owes there is signal 15 to the process 77.
owed_one : owed (codex false) outside restart managed ≡ signalled (pos 77) 15 ∷ []
unfolding codex_bridge.Process.read_pid codex_bridge.Common.Decimal.parse_unsigned
    codex_bridge.Common.Text.trim_start codex_bridge.Common.Text.trim_end
owed_one = refl

codex-KeepsPid : KeepsPid (codex false) outside
unfolding codex
codex-KeepsPid offset report m = refl

-- A daemon that answers nothing, as before its start.
abbrev silent : Outside
silent = record outside { probe_line = λ trace. none }

abbrev after_spawn : Machine
after_spawn = (spawn (codex false) silent url (probe_ready silent url machine).1).1

silent_probe : (probe_ready silent url machine).0 ≡ false
unfolding probe_ready codex_bridge.Common.Text.split_once codex_bridge.Common.Text.before_slash
    codex_bridge.Common.Text.contains
silent_probe = refl

codex_spawned :
    spawn (codex false) silent url (probe_ready silent url machine).1 ≡ (ok 77, after_spawn)
unfolding spawn codex probe_ready
codex_spawned = refl

pid_filed : after_spawn.pid_file ≡ some (show_ℕ 77)
unfolding spawn codex
pid_filed = refl

start_then_stop_example :
    IsStopped
      (codex false)
      silent
      77
      (run (codex false) silent url start machine).1
      (run (codex false) silent url shut_down (run (codex false) silent url start machine).1)
unfolding codex codex_bridge.Process.alive
start_then_stop_example =
    start_then_stop (codex false) silent url machine after_spawn 77 codex-KeepsPid silent_probe
      codex_spawned pid_filed (omega arith) refl

-- The same on Windows.
abbrev silent_windows : Outside
silent_windows = record silent { windows = true }

codex-KeepsHandles : KeepsHandles silent_windows (codex false)
unfolding codex
codex-KeepsHandles offset report m = refl

bring_up-IsDetached_example :
    IsDetached silent_windows (bring_up (codex false) silent_windows url true machine).1.trace
bring_up-IsDetached_example =
    bring_up-IsDetached silent_windows (codex false) refl url true machine codex-KeepsHandles tt
